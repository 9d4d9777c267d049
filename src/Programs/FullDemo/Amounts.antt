-- ===== src/Programs/FullDemo/Amounts.antt =====
-- What the demo leaves of the supply and in the wallets, where nobody else acts on its token.
use brale_miden_demo.Base.{
  Bool-cases, inl, inr, ℕ, sym, Eq, ◌-◌, ◌≡◌, refl, ◌∙◌, ap, subst, [], ◌∷◌, true, false,
}
use brale_miden_demo.Crypto.{Crypto}
use brale_miden_demo.Client.{Client}
use brale_miden_demo.Operations.Notes.{Messages, consume_available, consume_messages, consume_notes}
use brale_miden_demo.Operations.Tokens.{
  mint_tokens, burn_tokens, transfer_tokens, burn_messages, send_burn_note,
}
use brale_miden_demo.Ledger.{
  balance, Note, Ledger, issue, output, consume, Step, burnt, paid, credit,
}
use brale_miden_demo.Ledger.Laws.{Laws, payment, burn_order}
use brale_miden_demo.Ledger.Inversion.{Step-issue, Step-output, Step-consume}
use brale_miden_demo.Ledger.Alone.{own, Alone}
use brale_miden_demo.Ledger.Operations.{
  mint_tokens-Ordered, transfer_tokens-Ordered, send_burn_note-Ordered,
}
use brale_miden_demo.Programs.FullDemo.Moves.{Moves, then-Moves, Ordered-Moves, Own-Moves}

-- The accounts of the demo are three, as an equality test tells.
pub record Apart {Account : Type 0} (e : Eq Account) (issuer a b : Account) : Type 0 where
  pub aa : e.beq a a ≡ true
  pub bb : e.beq b b ≡ true
  pub ii : e.beq issuer issuer ≡ true
  pub ba : e.beq b a ≡ false
  pub ia : e.beq issuer a ≡ false
  pub ib : e.beq issuer b ≡ false

module _ {Account : Type 0} (issuer a b : Account) where
  -- The ledger of a new token, and after each transaction.
  abbrev pub fresh : Ledger Account
  fresh = record { supply = 0; vaults = []; notes = [] }

  abbrev pub minted : Ledger Account
  minted = record { supply = 1000; vaults = []; notes = payment a 1000 ∷ [] }

  abbrev pub paid_in : Ledger Account
  paid_in = record { supply = 1000; vaults = (a, 1000) ∷ []; notes = [] }

  abbrev pub moving : Ledger Account
  moving = record { supply = 1000; vaults = (a, 700) ∷ []; notes = payment b 300 ∷ [] }

  abbrev pub moved : Ledger Account
  moved = record { supply = 1000; vaults = (a, 700) ∷ (b, 300) ∷ []; notes = [] }

  abbrev pub burning : Ledger Account
  burning = record {
    supply = 1000;
    vaults = (a, 700) ∷ (b, 200) ∷ [];
    notes = burn_order issuer 100 ∷ [];
  }

  abbrev pub burnt_down : Ledger Account
  burnt_down = record { supply = 900; vaults = (a, 700) ∷ (b, 200) ∷ (issuer, 0) ∷ []; notes = [] }

-- Equality tests on three accounts that are known to differ.
different : {Account : Type 0} (e : Eq Account) (x y : Account) → ¬ (x ≡ y) → e.beq x y ≡ false
different e x y apart = elim (Bool-cases (e.beq x y)) [
  | inl same ↦ absurd (apart ((e.beq_iff x y).0 same))
  | inr unequal ↦ unequal
]

pub Apart-different :
    {Account : Type 0} (e : Eq Account) (issuer a b : Account)
    → ¬ (a ≡ issuer)
    → ¬ (b ≡ issuer)
    → ¬ (b ≡ a)
    → Apart e issuer a b
Apart-different e issuer a b ai bi ba = record {
  aa = (e.beq_iff a a).1 refl;
  bb = (e.beq_iff b b).1 refl;
  ii = (e.beq_iff issuer issuer).1 refl;
  ba = different e b a ba;
  ia = different e issuer a (λ h. ai (sym h));
  ib = different e issuer b (λ h. bi (sym h));
}

-- The supply, what two accounts hold, and that no note is in flight.
abbrev pub Holds :
    {Account : Type 0} → Eq Account → Ledger Account → ℕ → Account × ℕ → Account × ℕ → Type 0
Holds e l supply (a, n) (b, m) =
    (l.supply ≡ supply)
    × (balance ⦃e = e⦄ a l.vaults ≡ n)
    × (balance ⦃e = e⦄ b l.vaults ≡ m)
    × (l.notes ≡ [])

module _ {Account : Type 0} (e : Eq Account) (issuer a b : Account) (D : Apart e issuer a b) where
  -- What the three tables of the demo are of.
  pub paid_in-Holds : Holds e (paid_in issuer a b) 1000 (a, 1000) (b, 0)
  paid_in-Holds = (refl, rw D.aa, rw D.ba, refl)

  pub moved-Holds : Holds e (moved issuer a b) 1000 (a, 700) (b, 300)
  moved-Holds = (refl, rw D.aa, rw (D.ba, D.bb), refl)

  pub burnt_down-Holds : Holds e (burnt_down issuer a b) 900 (a, 700) (b, 200)
  burnt_down-Holds = (refl, rw D.aa, rw (D.ba, D.bb), refl)

module _ (C : Crypto) (K : Client C) (issuer : K.AccountId) (H : Laws C K issuer)
    (A : Alone C K issuer H) where
  module _ (a b : K.AccountId) (D : Apart H.account_eq issuer a b) where
    pub own-single :
        (id : K.AccountId) (n : Note K.AccountId)
        → H.account_eq.beq id n.owner ≡ true
        → own H.account_eq id (n ∷ []) ≡ n ∷ []
    own-single id n e = rw (e, own)

    pub mint-Moves :
        Moves C K issuer H A (mint_tokens C K issuer a 1000) (fresh issuer a b) (minted issuer a b)
    mint-Moves =
        Ordered-Moves C K issuer H A (mint_tokens C K issuer a 1000) issuer (issue (payment a 1000))
          (fresh issuer a b) (minted issuer a b) (mint_tokens-Ordered C K issuer H a 1000)
          (λ k s. Step-issue ⦃e = H.account_eq⦄ issuer (fresh issuer a b) k (payment a 1000) s)

    consume_only :
        (m : Messages) (id : K.AccountId) (n : Note K.AccountId) (l l' : Ledger K.AccountId)
        → l.notes ≡ n ∷ []
        → H.account_eq.beq id n.owner ≡ true
        → record {
          supply = l.supply - burnt (n ∷ []);
          vaults = credit ⦃e = H.account_eq⦄ id (paid (n ∷ [])) l.vaults;
          notes = [];
        }
          ≡ l'
        → Moves C K issuer H A (consume_available C K m id) l l'
    consume_only m id n l l' only owned e = Own-Moves C K issuer H A m id l l' (λ k s.
        Step-consume ⦃e = H.account_eq⦄ id l k n only (
          subst (λ t. Step ⦃e = H.account_eq⦄ issuer id (consume t) l k)
            (ap (λ x. own H.account_eq id x) only ∙ own-single id n owned) s)
        ∙ e)

    pub consume_a-Moves :
        Moves C K issuer H A (consume_notes C K a) (minted issuer a b) (paid_in issuer a b)
    unfolding consume_notes
    consume_a-Moves =
        consume_only (consume_messages C K a) a (payment a 1000) (minted issuer a b)
          (paid_in issuer a b) refl D.aa refl

    pub transfer-Moves :
        Moves C K issuer H A
          (transfer_tokens C K a b issuer 300)
          (paid_in issuer a b)
          (moving issuer a b)
    transfer-Moves =
        Ordered-Moves C K issuer H A (transfer_tokens C K a b issuer 300) a (output (payment b 300))
          (paid_in issuer a b) (moving issuer a b) (transfer_tokens-Ordered C K issuer H a b 300)
          (λ k s.
            Step-output ⦃e = H.account_eq⦄ a (paid_in issuer a b) k (payment b 300) s ∙ rw D.aa)

    pub consume_b-Moves :
        Moves C K issuer H A (consume_notes C K b) (moving issuer a b) (moved issuer a b)
    unfolding consume_notes
    consume_b-Moves =
        consume_only (consume_messages C K b) b (payment b 300) (moving issuer a b)
          (moved issuer a b) refl D.bb (rw D.ba)

    pub send_burn-Moves :
        Moves C K issuer H A
          (send_burn_note C K b issuer 100)
          (moved issuer a b)
          (burning issuer a b)
    send_burn-Moves =
        Ordered-Moves C K issuer H A (send_burn_note C K b issuer 100) b
          (output (burn_order issuer 100)) (moved issuer a b) (burning issuer a b)
          (send_burn_note-Ordered C K issuer H b 100)
          (λ k s.
            Step-output ⦃e = H.account_eq⦄ b (moved issuer a b) k (burn_order issuer 100) s
            ∙ rw (D.ba, D.bb))

    pub consume_issuer-Moves :
        Moves C K issuer H A
          (consume_available C K (burn_messages C K) issuer)
          (burning issuer a b)
          (burnt_down issuer a b)
    consume_issuer-Moves =
        consume_only (burn_messages C K) issuer (burn_order issuer 100) (burning issuer a b)
          (burnt_down issuer a b) refl D.ii (rw (D.ia, D.ib))

    pub burn-Moves :
        Moves C K issuer H A
          (burn_tokens C K b issuer 100)
          (moved issuer a b)
          (burnt_down issuer a b)
    unfolding burn_tokens
    burn-Moves =
        then-Moves C K issuer H A (send_burn_note C K b issuer 100)
          (λ _. consume_available C K (burn_messages C K) issuer) (moved issuer a b)
          (burning issuer a b) (burnt_down issuer a b) send_burn-Moves (λ _. consume_issuer-Moves)
