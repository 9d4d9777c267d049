-- ===== src/Ledger/Operations.antt =====
-- What `mint_tokens`, `transfer_tokens`, `consume_notes` and `burn_tokens` do to the ledger of the
-- token, each on its own.
pub mod Named
use brale_miden_demo.Base.{
  ℕ, zero, suc, ◌+◌, List, [], ◌∷◌, ◌++◌, ◌≡◌, ◌⊎◌, inl, inr, map, refl, sym, ◌∙◌, ap, subst,
  Result, ok, err, Result-cases, arith,
}
use brale_miden_demo.Text.{Str, text}
use brale_miden_demo.Crypto.{Crypto}
use brale_miden_demo.Client
use brale_miden_demo.Client.{Client, Error}
use brale_miden_demo.Operations.Monad.{World, Action, ◌>>=◌, ◌>>◌, context, lift, call}
use brale_miden_demo.Operations.Links.{chain, transaction_link, submit}
use brale_miden_demo.Operations.Tokens.{mint_tokens, transfer_tokens, send_burn_note, burn_tokens}
use brale_miden_demo.Operations.Notes.{
  Messages, max_attempts, await_rounds, await_notes, notes_of, consume_available, consume_notes,
}
use brale_miden_demo.Ledger.{Ledger, Order, issue, output, consume, Step, Reach, here, next}
use brale_miden_demo.Ledger.Laws.{Laws, Attempt, payment, burn_order}

module _ (C : Crypto) (K : Client C) (issuer : K.AccountId) (H : Laws C K issuer) where
  abbrev pub seen : World K.State → Ledger K.AccountId
  seen w = H.view w.state

  -- What relates the ledger before an operation, its result and the ledger after it.
  abbrev pub Outcome : Type 1
  Outcome = Ledger K.AccountId → Result Error (Unit {0}) → Ledger K.AccountId → Type 0

  abbrev pub Led : Action K.State (Unit {0}) → Outcome → World K.State → Type 0
  Led m P w = P (seen w) (m w).0 (seen (m w).1)

  pub led :
      (m : Action K.State (Unit {0})) (P : Outcome) (w : World K.State)
      (p : Result Error (Unit {0}) × World K.State)
      → m w ≡ p
      → P (seen w) p.0 (seen p.1)
      → Led m P w
  led m P w p e h = subst (λ q. P (seen w) q.0 (seen q.1)) (sym e) h

  -- A transaction: it took effect, or the call failed.
  abbrev pub Ordered : K.AccountId → Order K.AccountId → Outcome
  Ordered id o l (ok _) l' = Step ⦃e = H.account_eq⦄ issuer id o l l'
  Ordered id o l (err _) l' = Attempt ⦃e = H.account_eq⦄ issuer id o l l'

  submit-Ordered :
      (failed : Str) (id : K.AccountId) (request : K.TransactionRequest) (w : World K.State)
      → Led (submit C K failed id request) (Ordered id (H.order request)) w
  unfolding submit
  submit-Ordered failed id request w =
      let s = (K.submit_new_transaction id request w.state).1 in
      elim (Result-cases (K.submit_new_transaction id request w.state).0) [
        | inl (tx, e) ↦
            led (submit C K failed id request) (Ordered id (H.order request)) w
              (ok tt, record { state = s; out = w.out ++ (transaction_link C K tx ∷ []) })
              (ground arith) (H.submitted id request w.state tx e)
        | inr (x, e) ↦
            led (submit C K failed id request) (Ordered id (H.order request)) w
              (err (failed ∷ x), record w { state = s }) (ground arith)
              (H.refused id request w.state x e)
      ]

  -- A submission, as seen from an earlier world that shows the same ledger.
  pub submit-from :
      (failed : Str) (id : K.AccountId) (request : K.TransactionRequest) {o : Order K.AccountId}
      (w v : World K.State)
      → seen v ≡ seen w
      → H.order request ≡ o
      → Ordered id o
          (seen w)
          (submit C K failed id request v).0
          (seen (submit C K failed id request v).1)
  submit-from failed id request {o = o} w v same asked =
      subst
        (λ l.
          Ordered id o l (submit C K failed id request v).0
            (seen (submit C K failed id request v).1))
        same
        (subst (λ p. Led (submit C K failed id request) (Ordered id p) v) asked
          (submit-Ordered failed id request v))

  -- An asset, a request made of it, and the submission of the request.
  module _ {A : Type 0} (id : K.AccountId) (asset : Result Error A)
      (build : A → K.State → Result Error K.TransactionRequest × K.State) (o : Order K.AccountId)
      (ordered : (a : A) (s : K.State) (request : K.TransactionRequest)
        → asset ≡ ok a
        → (build a s).0 ≡ ok request
        → H.order request ≡ o)
      (quiet : (a : A) (s : K.State) → H.view (build a s).1 ≡ H.view s) where
    chain-Ordered :
        (no_asset no_request failed : Str) (w : World K.State)
        → Led (chain C K id asset build no_asset no_request failed) (Ordered id o) w
    chain-Ordered no_asset no_request failed w = elim (Result-cases asset) [
      | inl (a, ea) ↦ elim (Result-cases (build a w.state).0) [
        | inl (request, er) ↦
            let v : World K.State = record w { state = (build a w.state).1 } in
            led (chain C K id asset build no_asset no_request failed) (Ordered id o) w
              (submit C K failed id request v) (ground arith)
              (submit-from failed id request w v (quiet a w.state)
                (ordered a w.state request ea er))
        | inr (x, er) ↦
            led (chain C K id asset build no_asset no_request failed) (Ordered id o) w
              (err (no_request ∷ x), record w { state = (build a w.state).1 }) (ground arith)
              (inl (quiet a w.state))
      ]
      | inr (x, ea) ↦
          led (chain C K id asset build no_asset no_request failed) (Ordered id o) w
            (err (no_asset ∷ x), w) (ground arith) (inl refl)
    ]

  pub mint_tokens-Ordered :
      (target : K.AccountId) (n : ℕ) (w : World K.State)
      → Led (mint_tokens C K issuer target n) (Ordered issuer (issue (payment target n))) w
  unfolding mint_tokens
  mint_tokens-Ordered target n w =
      chain-Ordered issuer (K.fungible_asset issuer n)
        (λ asset. K.build_mint_fungible_asset asset target Client.NoteType.private)
        (issue (payment target n))
        (λ a s request. H.mint_order n a target Client.NoteType.private s request)
        (λ a s. H.mint_view a target Client.NoteType.private s)
        (text "failed to create fungible asset for minting")
        (text "failed to build mint transaction request") (text "failed to submit mint transaction")
        w

  pub transfer_tokens-Ordered :
      (sender recipient : K.AccountId) (n : ℕ) (w : World K.State)
      → Led
          (transfer_tokens C K sender recipient issuer n)
          (Ordered sender (output (payment recipient n)))
          w
  unfolding transfer_tokens
  transfer_tokens-Ordered sender recipient n w =
      chain-Ordered sender (K.fungible_asset issuer n)
        (λ asset. K.build_pay_to_id (asset ∷ []) sender recipient Client.NoteType.private)
        (output (payment recipient n))
        (λ a s request. H.pay_order n a sender recipient Client.NoteType.private s request)
        (λ a s. H.pay_view (a ∷ []) sender recipient Client.NoteType.private s)
        (text "failed to create fungible asset for transfer")
        (text "failed to build P2ID transfer request")
        (text "failed to submit transfer transaction") w

  pub send_burn_note-Ordered :
      (sender : K.AccountId) (n : ℕ) (w : World K.State)
      → Led (send_burn_note C K sender issuer n) (Ordered sender (output (burn_order issuer n))) w
  unfolding send_burn_note
  send_burn_note-Ordered sender n w = elim (Result-cases (K.fungible_asset issuer n)) [
    | inl (a, ea) ↦
        let made = K.create_burn_note sender issuer a K.default_attachment w.state in
        let v : World K.State = record w { state = made.1 } in
        let quiet = H.burn_view sender a K.default_attachment w.state in
        elim (Result-cases made.0) [
          | inl (note, en) ↦ elim (Result-cases (K.build_own_output_notes (note ∷ []))) [
            | inl (request, er) ↦ led m o w (submit C K failed sender request v) (ground arith) (
                submit-from failed sender request w v quiet (
                  H.output_order note request er
                  ∙ ap (λ x. output x)
                      (H.burn_value n a sender K.default_attachment w.state note ea en)))
            | inr (x, er) ↦
                led m o w (err (text "failed to build burn sender transaction" ∷ x), v)
                  (ground arith) (inl quiet)
          ]
          | inr (x, en) ↦
              led m o w (err (text "failed to create burn note" ∷ x), v) (ground arith) (inl quiet)
        ]
    | inr (x, ea) ↦
        led m o w (err (text "failed to create fungible asset for burning" ∷ x), w) (ground arith)
          (inl refl)
  ]
    where
      m : Action K.State (Unit {0})
      m = send_burn_note C K sender issuer n

      o : Outcome
      o = Ordered sender (output (burn_order issuer n))

      failed : Str
      failed = text "failed to submit burn sender transaction"
