-- ===== src/Ledger/Alone.antt =====
-- The operations where nobody else acts on the token: what a consumption takes is then known.
pub mod Owned
pub mod Refining
use brale_miden_demo.Base.{
  ℕ, zero, suc, ◌+◌, List, [], ◌∷◌, ◌≡◌, inl, inr, map, refl, ◌∙◌, ap, subst, Result, ok, err,
  Result-cases, true, false, is_empty, some, Bool, Eq, arith,
}
use brale_miden_demo.Crypto.{Crypto}
use brale_miden_demo.Client.{Client, Error}
use brale_miden_demo.Operations.Monad.{World}
use brale_miden_demo.Operations.Links.{submit}
use brale_miden_demo.Operations.Notes.{
  Messages, Found, max_attempts, await_rounds, await_notes, notes_of, consume_available,
}
use brale_miden_demo.Operations.Notes.Polling.{await_notes-ok}
use brale_miden_demo.Ledger.{Note, Ledger, consume, Step}
use brale_miden_demo.Ledger.Laws.{Laws}
use brale_miden_demo.Ledger.Operations.{seen, Outcome, Led, led, Ordered, submit-from}

-- The notes of a list that are for an account.
abbrev pub own :
    {Account : Type 0} → Eq Account → Account → List (Note Account) → List (Note Account)
own e id [] = []
own e id (n ∷ notes) = elim (e.beq id n.owner) [
  | true ↦ n ∷ own e id notes
  | false ↦ own e id notes
]

-- A sync, a pause and the creation of accounts leave the token alone, and if the client shows notes
-- for an account then it shows all of the ledger's.
pub record Alone (C : Crypto) (K : Client C) (issuer : K.AccountId) (H : Laws C K issuer)
    : Type 0 where
  pub synced_same : (s : K.State) → H.view (K.sync_state s).1 ≡ H.view s
  pub slept_same : (s : K.State) → H.view (K.sleep 3 s) ≡ H.view s
  pub drawn_same : (s : K.State) → H.view (K.fill_bytes s).1 ≡ H.view s
  pub added_same :
      (account : K.Account) (overwrite : Bool) (s : K.State)
      → H.view (K.add_account account overwrite s).1 ≡ H.view s
  pub shown :
      (id : K.AccountId) (s : K.State) (found : Found C K)
      → K.get_consumable_notes (some id) s ≡ ok found
      → is_empty found ≡ false
      → map H.note_value (notes_of C K found) ≡ own H.account_eq id (H.view s).notes

module _ (C : Crypto) (K : Client C) (issuer : K.AccountId) (H : Laws C K issuer)
    (A : Alone C K issuer H) where
  await_rounds-same :
      (most : ℕ) (m : Messages) (id : K.AccountId) (left attempt : ℕ) (w : World K.State)
      → seen C K issuer H (await_rounds C K most m id left attempt w).1 ≡ seen C K issuer H w
  unfolding await_rounds
  await_rounds-same most m id zero attempt w = refl
  await_rounds-same most m id (suc left) attempt w =
      let s = (K.sync_state w.state).1 in
      let v : World K.State = record w { state = K.sleep 3 s } in
      ground (
        arith,
        A.synced_same w.state,
        A.slept_same s,
        await_rounds-same most m id left (attempt + 1) v,
      )

  pub await_notes-same :
      (m : Messages) (id : K.AccountId) (w : World K.State)
      → seen C K issuer H (await_notes C K max_attempts m id w).1 ≡ seen C K issuer H w
  unfolding await_notes
  await_notes-same m id w = await_rounds-same max_attempts m id max_attempts 1 w

  -- A consumption is one transaction that takes all notes of the account, or it fails.
  pub consume_available-Ordered :
      (m : Messages) (id : K.AccountId) (w : World K.State)
      → Led C K issuer H
          (consume_available C K m id)
          (Ordered C K issuer H id (consume (own H.account_eq id (seen C K issuer H w).notes)))
          w
  unfolding consume_available
  consume_available-Ordered m id w = elim (Result-cases waited.0) [
    | inl (u, ended) ↦ elim (Result-cases (K.get_consumable_notes (some id) v.state)) [
      | inl (found, shown) ↦ elim (Result-cases (K.build_consume_notes (notes_of C K found))) [
        | inl (request, built) ↦
            led C K issuer H (consume_available C K m id) owned w
              (submit C K m.submit_failed id request v) (ground arith)
              (submit-from C K issuer H m.submit_failed id request w v same (
                H.consume_order (notes_of C K found) request built
                ∙ ap (λ x. consume x)
                    (A.shown id v.state found shown (some_shown found ended shown)
                      ∙ ap (λ (x : Ledger K.AccountId). own H.account_eq id x.notes) same)))
        | inr (x, built) ↦ stopped (m.build_failed ∷ x) (ground arith)
      ]
      | inr (x, shown) ↦ stopped (m.read_failed ∷ x) (ground arith)
    ]
    | inr (x, ended) ↦ stopped x (ground arith)
  ]
    where
      waited : Result Error (Unit {0}) × World K.State
      waited = await_notes C K max_attempts m id w

      v : World K.State
      v = waited.1

      owned : Outcome C K issuer H
      owned = Ordered C K issuer H id (consume (own H.account_eq id (seen C K issuer H w).notes))

      same : seen C K issuer H v ≡ seen C K issuer H w
      same = await_notes-same m id w

      stopped :
          (e : Error)
          → consume_available C K m id w ≡ (err e, v)
          → Led C K issuer H (consume_available C K m id) owned w
      stopped e h = led C K issuer H (consume_available C K m id) owned w (err e, v) h (inl same)

      some_shown :
          (found : Found C K)
          → waited.0 ≡ ok tt
          → K.get_consumable_notes (some id) v.state ≡ ok found
          → is_empty found ≡ false
      some_shown found ended shown =
          ground (arith, await_notes-ok C K id max_attempts m w v (omega arith) (λ i. (ended i, v)))

  pub consume_available-own :
      (m : Messages) (id : K.AccountId) (w w' : World K.State)
      → consume_available C K m id w ≡ (ok tt, w')
      → Step ⦃e = H.account_eq⦄ issuer id
          (consume (own H.account_eq id (seen C K issuer H w).notes))
          (seen C K issuer H w)
          (seen C K issuer H w')
  consume_available-own m id w w' h =
      subst
        (λ p.
          Ordered C K issuer H id (consume (own H.account_eq id (seen C K issuer H w).notes))
            (seen C K issuer H w) p.0 (seen C K issuer H p.1))
        h (consume_available-Ordered m id w)
