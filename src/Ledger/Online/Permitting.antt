-- ===== src/Ledger/Online/Permitting.antt =====
-- What the ledger has to permit for an operation.
use brale_miden_demo.Base.{◌+◌, ◌-◌, ◌≤◌, ◌<◌, ◌^◌, List, [], ◌∷◌, ◌++◌, ◌≡◌, refl, arith}
use brale_miden_demo.Crypto.{Crypto}
use brale_miden_demo.Client.{Client}
use brale_miden_demo.Ledger.{
  Note, Ledger, Order, output, paid, burnt, balance, credit, debit, sent, consumed,
}
use brale_miden_demo.Ledger.Conservation.{IsConserved, in_notes-parts, in_notes-Takes}
use brale_miden_demo.Ledger.Laws.{Laws}
use brale_miden_demo.Ledger.Operations.Named.{Operation, mint, transfer, burn}
use brale_miden_demo.Ledger.Alone.{own, Alone}
use brale_miden_demo.Ledger.Alone.Owned.{own-Takes}
use brale_miden_demo.Ledger.Online.{Online, Signing, Active}
use brale_miden_demo.Ledger.Online.Completing.{Permitted}

module _ (C : Crypto) (K : Client C) (issuer : K.AccountId) (H : Laws C K issuer)
    (A : Alone C K issuer H) (G : Signing C K) (O : Online C K issuer H G) where
  -- The supply is conserved and within the cap.
  abbrev pub Sound : Ledger K.AccountId → Type 0
  Sound l = IsConserved l × (l.supply ≤ O.max_supply)

  -- What the ledger has to permit.
  abbrev pub Enabled : Operation K.AccountId → Ledger K.AccountId → Type 0
  Enabled (mint target n) l = (n < 2 ^ 63) × (l.supply + n ≤ O.max_supply)
  Enabled (transfer sender recipient n) l =
      (n < 2 ^ 63) × (n ≤ balance ⦃e = H.account_eq⦄ sender l.vaults)
  Enabled (burn sender n) l = (n < 2 ^ 63) × (n ≤ balance ⦃e = H.account_eq⦄ sender l.vaults)
  Enabled (Operation.consume id) l =
      (n : Note K.AccountId) × (rest : List (Note K.AccountId)) × (own H.account_eq id l.notes
        ≡ n ∷ rest)

  -- The accounts that have to be tracked, with a key that is signed for.
  abbrev pub Ready : Operation K.AccountId → K.State → Type 0
  Ready (mint target n) s = Active C K G issuer s
  Ready (transfer sender recipient n) s = Active C K G sender s
  Ready (burn sender n) s = Active C K G sender s × Active C K G issuer s
  Ready (Operation.consume id) s = Active C K G id s

  -- Consuming all notes of an account is permitted, since the supply covers what they burn.
  pub own-Permitted :
      (id : K.AccountId) (l : Ledger K.AccountId)
      → Sound l
      → Permitted C K issuer H A G O id (Order.consume (own H.account_eq id l.notes)) l
  own-Permitted id l (conserved, fits) =
      let taken = own H.account_eq id l.notes in
      let (rest, takes, owns) = own-Takes H.account_eq id l.notes in
      let covered : burnt taken ≤ l.supply =
        omega (arith, conserved, in_notes-parts taken, in_notes-Takes taken l.notes rest takes) in
      (
        record {
          supply = l.supply - burnt taken;
          vaults = credit ⦃e = H.account_eq⦄ id (paid taken) l.vaults;
          notes = rest;
        },
        consumed taken rest refl takes owns covered refl,
        omega (arith, fits),
      )

  pub output-Permitted :
      (id : K.AccountId) (n : Note K.AccountId) (l : Ledger K.AccountId)
      → Sound l
      → n.amount ≤ balance ⦃e = H.account_eq⦄ id l.vaults
      → Permitted C K issuer H A G O id (output n) l
  output-Permitted id n l (conserved, fits) enough = (
    record l {
      vaults = debit ⦃e = H.account_eq⦄ id n.amount l.vaults;
      notes = l.notes ++ (n ∷ []);
    },
    sent n refl enough refl,
    fits,
  )
