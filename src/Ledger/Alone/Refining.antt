-- ===== src/Ledger/Alone/Refining.antt =====
-- What each operation does to the ledger where nobody else acts on the token, by its result.
use brale_miden_demo.Base.{◌⊎◌, Result, ok, err}
use brale_miden_demo.Crypto.{Crypto}
use brale_miden_demo.Client.{Client, Error}
use brale_miden_demo.Ledger.{Ledger, Order, issue, output, Step}
use brale_miden_demo.Ledger.Laws.{Laws, Attempt, payment, burn_order}
use brale_miden_demo.Ledger.Operations.Named.{Operation, mint, transfer, burn}
use brale_miden_demo.Ledger.Alone.{own, Alone}

module _ (C : Crypto) (K : Client C) (issuer : K.AccountId) (H : Laws C K issuer) where
  -- What an operation does to the ledger where it returns without an error.
  abbrev pub Effect : Operation K.AccountId → Ledger K.AccountId → Ledger K.AccountId → Type 0
  Effect (mint target n) l l' =
      Step ⦃e = H.account_eq⦄ issuer issuer (issue (payment target n)) l l'
  Effect (transfer sender recipient n) l l' =
      Step ⦃e = H.account_eq⦄ issuer sender (output (payment recipient n)) l l'
  Effect (burn sender n) l l' =
      (m : Ledger K.AccountId) × Step ⦃e = H.account_eq⦄ issuer sender
        (output (burn_order issuer n)) l m
      × Step ⦃e = H.account_eq⦄ issuer issuer (Order.consume (own H.account_eq issuer m.notes)) m l'
  Effect (Operation.consume id) l l' =
      Step ⦃e = H.account_eq⦄ issuer id (Order.consume (own H.account_eq id l.notes)) l l'

  -- What it may have done where it failed: nothing, or its transaction took effect although its
  -- submission reported an error; a burn may also have sent its note.
  abbrev pub Failure : Operation K.AccountId → Ledger K.AccountId → Ledger K.AccountId → Type 0
  Failure (mint target n) l l' =
      Attempt ⦃e = H.account_eq⦄ issuer issuer (issue (payment target n)) l l'
  Failure (transfer sender recipient n) l l' =
      Attempt ⦃e = H.account_eq⦄ issuer sender (output (payment recipient n)) l l'
  Failure (burn sender n) l l' =
      Attempt ⦃e = H.account_eq⦄ issuer sender (output (burn_order issuer n)) l l'
      ⊎ ((m : Ledger K.AccountId) × Step ⦃e = H.account_eq⦄ issuer sender
            (output (burn_order issuer n)) l m
          × Attempt ⦃e = H.account_eq⦄ issuer issuer
              (Order.consume (own H.account_eq issuer m.notes)) m l')
  Failure (Operation.consume id) l l' =
      Attempt ⦃e = H.account_eq⦄ issuer id (Order.consume (own H.account_eq id l.notes)) l l'

  abbrev pub Refines :
      Operation K.AccountId
      → Ledger K.AccountId
      → Result Error (Unit {0})
      → Ledger K.AccountId
      → Type 0
  Refines o l (ok _) l' = Effect o l l'
  Refines o l (err _) l' = Failure o l l'
