-- ===== src/Programs/FullDemo/Running.antt =====
-- Actions of the demo that end without an error, and what the ledger of the token permits on the way.
use brale_miden_demo.Base.{◌≤◌, [], ◌∷◌, ◌≡◌, true, refl, sym, ◌∙◌, ap, subst, ok, arith}
use brale_miden_demo.Crypto.{Crypto}
use brale_miden_demo.Client.{Client}
use brale_miden_demo.Operations.Monad.{World, Action, ◌>>◌}
use brale_miden_demo.Operations.Calls.{Kept, Keeps, Stable, OnState, Kept-Stable}
use brale_miden_demo.Operations.Calls.Preserving.{
  mint_tokens-Keeps, transfer_tokens-Keeps, consume_notes-Keeps, consume_available-Keeps,
  send_burn_note-Keeps,
}
use brale_miden_demo.Operations.Notes.{Messages, consume_messages, consume_available, consume_notes}
use brale_miden_demo.Operations.Tokens.{
  mint_tokens, transfer_tokens, send_burn_note, burn_tokens, burn_messages,
}
use brale_miden_demo.Ledger.{Note, Ledger, issue, output, consume, Step, issued, sent, consumed}
use brale_miden_demo.Ledger.Laws.{Laws, payment, burn_order}
use brale_miden_demo.Ledger.Operations.{seen}
use brale_miden_demo.Ledger.Alone.{own, Alone}
use brale_miden_demo.Ledger.Online.{Online, Signing, Active, Active-kept}
use brale_miden_demo.Ledger.Online.Completing.{
  Permitted, mint_tokens-ok, transfer_tokens-ok, send_burn_note-ok, consume_available-ok,
}
use brale_miden_demo.Programs.FullDemo.Moves.{Moves}
use brale_miden_demo.Programs.FullDemo.Amounts.{
  Apart, own-single, fresh, minted, paid_in, moving, moved, burning, burnt_down, mint-Moves,
  consume_a-Moves, transfer-Moves, consume_b-Moves, send_burn-Moves, consume_issuer-Moves,
}

module _ (C : Crypto) (K : Client C) (issuer : K.AccountId) (H : Laws C K issuer)
    (A : Alone C K issuer H) (G : Signing C K) (O : Online C K issuer H G) (a b : K.AccountId) where
  -- The three accounts are tracked, and their keys sign.
  abbrev pub AllActive : K.State → Type 0
  AllActive s = Active C K G issuer s × Active C K G a s × Active C K G b s

  pub AllActive-kept : Kept C K AllActive
  AllActive-kept s s' c (i, x, y) = (
    Active-kept C K G O.keeping issuer s s' c i,
    Active-kept C K G O.keeping a s s' c x,
    Active-kept C K G O.keeping b s s' c y,
  )

  pub AllActive-Stable : Stable C K (OnState C K AllActive)
  AllActive-Stable = Kept-Stable C K AllActive AllActive-kept

  -- From worlds with one ledger an action ends without an error in a world with the other.
  pub record Runs {T : Type 0} (m : Action K.State T) (l l' : Ledger K.AccountId) : Type 0 where
    pub holds :
        (w : World K.State)
        → seen C K issuer H w ≡ l
        → AllActive w.state
        → (x : T) × (w' : World K.State) × (m w ≡ (ok x, w'))
          × (seen C K issuer H w' ≡ l')
          × AllActive w'.state

  pub next-Runs :
      {T U : Type 0} (m : Action K.State T) (k : Action K.State U) (l n l' : Ledger K.AccountId)
      → Runs m l n
      → Runs k n l'
      → Runs (m >> k) l l'
  next-Runs m k l n l' hm hk = record {
    holds = λ w e t.
        let (x, v, em, ev, tv) = hm.holds w e t in
        let (y, w', ek, ew, tw) = hk.holds v ev tv in (y, w', ground arith, ew, tw);
  }

  -- What succeeds, takes the ledger on, and keeps what every call keeps.
  pub running :
      {T : Type 0} (m : Action K.State T) (l l' : Ledger K.AccountId)
      → ((w : World K.State)
          → seen C K issuer H w ≡ l
          → AllActive w.state
          → (x : T) × ((m w).0 ≡ ok x))
      → Moves C K issuer H A m l l'
      → Keeps C K (OnState C K AllActive) AllActive-Stable m
      → Runs m l l'
  running m l l' succeeds moves keeps = record {
    holds = λ w e t.
        let (x, ex) = succeeds w e t in
        let h : m w ≡ (ok x, (m w).1) = λ i. (ex i, (m w).1) in
        (x, (m w).1, h, moves.holds x w (m w).1 h e, keeps.holds w t);
  }

  module _ (D : Apart H.account_eq issuer a b) (fits : 1000 ≤ O.max_supply) where
    pub mint-Runs : Runs (mint_tokens C K issuer a 1000) (fresh issuer a b) (minted issuer a b)
    mint-Runs =
        running (mint_tokens C K issuer a 1000) (fresh issuer a b) (minted issuer a b)
          (λ w e t. (
            tt,
            mint_tokens-ok C K issuer H A G O a 1000 w (omega arith) t.0 (
                subst (Permitted C K issuer H A G O issuer (issue (payment a 1000))) (sym e)
                  (minted issuer a b, issued (payment a 1000) refl refl refl, fits)),
          ))
          (mint-Moves C K issuer H A a b D)
          (mint_tokens-Keeps C K (OnState C K AllActive) AllActive-Stable issuer a 1000)

    -- Consuming the only note, which is for the account.
    consume_only-ok :
        (m : Messages) (id : K.AccountId) (n : Note K.AccountId) (l l' : Ledger K.AccountId)
        (w : World K.State)
        → l.notes ≡ n ∷ []
        → H.account_eq.beq id n.owner ≡ true
        → Active C K G id w.state
        → Step ⦃e = H.account_eq⦄ issuer id (consume (n ∷ [])) l l'
        → l'.supply ≤ O.max_supply
        → seen C K issuer H w ≡ l
        → (consume_available C K m id w).0 ≡ ok tt
    consume_only-ok m id n l l' w only owned tracked s fit e =
        let own_only : own H.account_eq id l.notes ≡ n ∷ [] =
          ap (λ x. own H.account_eq id x) only ∙ own-single C K issuer H A a b D id n owned in
        let own_now : own H.account_eq id (seen C K issuer H w).notes ≡ n ∷ [] =
          ap (λ (x : Ledger K.AccountId). own H.account_eq id x.notes) e ∙ own_only in
        consume_available-ok C K issuer H A G O m id w n [] tracked own_now (
          subst
            (λ (x : Ledger K.AccountId).
              Permitted C K issuer H A G O id (consume (own H.account_eq id x.notes)) x)
            (sym e)
            (subst (λ t. Permitted C K issuer H A G O id (consume t) l) (sym own_only)
              (l', s, fit)))

    pub consume_a-Runs : Runs (consume_notes C K a) (minted issuer a b) (paid_in issuer a b)
    unfolding consume_notes
    consume_a-Runs =
        running (consume_notes C K a) (minted issuer a b) (paid_in issuer a b)
          (λ w e t. (
            tt,
            consume_only-ok (consume_messages C K a) a (payment a 1000) (minted issuer a b)
                (paid_in issuer a b) w refl D.aa t.1
                (consumed (payment a 1000 ∷ []) [] refl ([], [], refl, refl) (refl, tt)
                  (omega arith) refl)
                fits e,
          ))
          (consume_a-Moves C K issuer H A a b D)
          (consume_notes-Keeps C K (OnState C K AllActive) AllActive-Stable a)

    pub transfer-Runs :
        Runs (transfer_tokens C K a b issuer 300) (paid_in issuer a b) (moving issuer a b)
    transfer-Runs =
        running (transfer_tokens C K a b issuer 300) (paid_in issuer a b) (moving issuer a b)
          (λ w e t. (
            tt,
            transfer_tokens-ok C K issuer H A G O a b 300 w (omega arith) t.1 (
                subst (Permitted C K issuer H A G O a (output (payment b 300))) (sym e) (
                  moving issuer a b,
                  sent (payment b 300) refl (rw D.aa (omega arith)) (rw D.aa),
                  fits,
                )),
          ))
          (transfer-Moves C K issuer H A a b D)
          (transfer_tokens-Keeps C K (OnState C K AllActive) AllActive-Stable a b issuer 300)

    pub consume_b-Runs : Runs (consume_notes C K b) (moving issuer a b) (moved issuer a b)
    unfolding consume_notes
    consume_b-Runs =
        running (consume_notes C K b) (moving issuer a b) (moved issuer a b)
          (λ w e t. (
            tt,
            consume_only-ok (consume_messages C K b) b (payment b 300) (moving issuer a b)
                (moved issuer a b) w refl D.bb t.2
                (consumed (payment b 300 ∷ []) [] refl ([], [], refl, refl) (refl, tt) (omega arith)
                  (rw D.ba))
                fits e,
          ))
          (consume_b-Moves C K issuer H A a b D)
          (consume_notes-Keeps C K (OnState C K AllActive) AllActive-Stable b)

    send_burn-Runs : Runs (send_burn_note C K b issuer 100) (moved issuer a b) (burning issuer a b)
    send_burn-Runs =
        running (send_burn_note C K b issuer 100) (moved issuer a b) (burning issuer a b)
          (λ w e t. (
            tt,
            send_burn_note-ok C K issuer H A G O b 100 w (omega arith) t.2 (
                subst (Permitted C K issuer H A G O b (output (burn_order issuer 100))) (sym e) (
                  burning issuer a b,
                  sent (burn_order issuer 100) refl (rw (D.ba, D.bb) (omega arith))
                      (rw (D.ba, D.bb)),
                  fits,
                )),
          ))
          (send_burn-Moves C K issuer H A a b D)
          (send_burn_note-Keeps C K (OnState C K AllActive) AllActive-Stable b issuer 100)

    consume_issuer-Runs :
        Runs
          (consume_available C K (burn_messages C K) issuer)
          (burning issuer a b)
          (burnt_down issuer a b)
    consume_issuer-Runs =
        running (consume_available C K (burn_messages C K) issuer) (burning issuer a b)
          (burnt_down issuer a b)
          (λ w e t. (
            tt,
            consume_only-ok (burn_messages C K) issuer (burn_order issuer 100) (burning issuer a b)
                (burnt_down issuer a b) w refl D.ii t.0
                (consumed (burn_order issuer 100 ∷ []) [] refl ([], [], refl, refl) (refl, tt)
                  (omega arith) (rw (D.ia, D.ib)))
                (omega (arith, fits)) e,
          ))
          (consume_issuer-Moves C K issuer H A a b D)
          (consume_available-Keeps C K (OnState C K AllActive) AllActive-Stable (burn_messages C K)
            issuer)

    pub burn-Runs : Runs (burn_tokens C K b issuer 100) (moved issuer a b) (burnt_down issuer a b)
    unfolding burn_tokens
    burn-Runs =
        next-Runs (send_burn_note C K b issuer 100)
          (consume_available C K (burn_messages C K) issuer) (moved issuer a b) (burning issuer a b)
          (burnt_down issuer a b) send_burn-Runs consume_issuer-Runs
