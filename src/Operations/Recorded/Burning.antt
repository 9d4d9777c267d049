-- ===== src/Operations/Recorded/Burning.antt =====
-- Which transactions `burn_tokens` submits, and what a failed burn leaves behind.
use brale_miden_demo.Base.{
  ℕ, [], ◌∷◌, ◌≡◌, ◌⊎◌, inl, inr, false, append-nil, append_assoc, is_empty, some, Result, ok, err,
  Result-cases, arith,
}
use brale_miden_demo.Text.{text}
use brale_miden_demo.Crypto.{Crypto}
use brale_miden_demo.Client.{Client, Error}
use brale_miden_demo.Operations.Links.{transaction_link}
use brale_miden_demo.Operations.Notes.{Found, notes_of, consume_notes, consume_messages}
use brale_miden_demo.Operations.Tokens.{send_burn_note, burn_messages, burn_tokens}
use brale_miden_demo.Operations.Recorded.{Traced}
use brale_miden_demo.Operations.Recorded.Submissions.{
  R, W, Submitted, Refused, submit-ok, submit-err, moved,
}
use brale_miden_demo.Operations.Recorded.Consumptions.{ConsumeOutcome, consume_available-outcome}

module _ (C : Crypto) (K : Client C) where
  -- One submission of the sender, of a request with the burn note of the issuer's asset, answered with a
  -- transaction; or none, or just one that was refused.
  abbrev pub SendOutcome :
      K.AccountId → K.AccountId → ℕ → W C K → Result Error (Unit {0}) → W C K → Type 0
  SendOutcome sender issuer amount w (ok _) w' =
      (asset : K.FungibleAsset) × (note : K.Note) × (request : K.TransactionRequest)
      × (K.fungible_asset issuer amount ≡ ok asset)
      × ((K.create_burn_note sender issuer asset K.default_attachment w.state.0).0 ≡ ok note)
      × (K.build_own_output_notes (note ∷ []) ≡ ok request)
      × Submitted C K w sender request w'
  SendOutcome sender issuer amount w (err _) w' =
      Traced C K w w' []
      ⊎ ((asset : K.FungibleAsset) × (note : K.Note) × (request : K.TransactionRequest)
          × (K.fungible_asset issuer amount ≡ ok asset)
          × ((K.create_burn_note sender issuer asset K.default_attachment w.state.0).0 ≡ ok note)
          × (K.build_own_output_notes (note ∷ []) ≡ ok request)
          × Refused C K w sender request w')

  send_burn_note-outcome :
      (sender issuer : K.AccountId) (amount : ℕ) (r : Result Error (Unit {0})) (w w' : W C K)
      → send_burn_note C (R C K) sender issuer amount w ≡ (r, w')
      → SendOutcome sender issuer amount w r w'
  unfolding send_burn_note
  send_burn_note-outcome sender issuer amount r w w' h =
      elim (Result-cases (K.fungible_asset issuer amount)) [
        | inl (asset, ea) ↦
            elim (Result-cases
              (K.create_burn_note sender issuer asset K.default_attachment w.state.0).0) [
                | inl (note, en) ↦ elim (Result-cases (K.build_own_output_notes (note ∷ []))) [
                  | inl (request, er) ↦ submitted asset note request ea en er r h
                  | inr (x, er) ↦
                      nothing_done r (text "failed to build burn sender transaction" ∷ x)
                        (ground arith) (ground (arith, append-nil w.state.1, append-nil w.out))
                ]
                | inr (x, en) ↦
                    nothing_done r (text "failed to create burn note" ∷ x) (ground arith)
                      (ground (arith, append-nil w.state.1, append-nil w.out))
              ]
        | inr (x, ea) ↦
            nothing_done r (text "failed to create fungible asset for burning" ∷ x) (ground arith)
              (ground (arith, append-nil w.state.1, append-nil w.out))
      ]
    where
      nothing_done :
          (r : Result Error (Unit {0})) (e : Error)
          → r ≡ err e
          → Traced C K w w' []
          → SendOutcome sender issuer amount w r w'
      nothing_done (ok u) e f same = absurd (ground arith)
      nothing_done (err x) e f same = inl same

      submitted :
          (asset : K.FungibleAsset) (note : K.Note) (request : K.TransactionRequest)
          → K.fungible_asset issuer amount ≡ ok asset
          → (K.create_burn_note sender issuer asset K.default_attachment w.state.0).0 ≡ ok note
          → K.build_own_output_notes (note ∷ []) ≡ ok request
          → (r : Result Error (Unit {0}))
          → send_burn_note C (R C K) sender issuer amount w ≡ (r, w')
          → SendOutcome sender issuer amount w r w'
      submitted asset note request ea en er (ok u) h =
          let s = (K.create_burn_note sender issuer asset K.default_attachment w.state.0).1 in
          (
            asset,
            note,
            request,
            ea,
            en,
            er,
            submit-ok C K (text "failed to submit burn sender transaction") sender request
                (moved C K w s) w' (ground arith),
          )
      submitted asset note request ea en er (err e) h =
          let s = (K.create_burn_note sender issuer asset K.default_attachment w.state.0).1 in
          inr (
            asset,
            note,
            request,
            ea,
            en,
            er,
            submit-err C K (text "failed to submit burn sender transaction") sender request e
                (moved C K w s) w' (ground arith),
          )

  -- How a burn ended: with the transactions of both steps in order; or, where it failed, as the sender's
  -- step did, or with the sender's transaction and then as the consumption did.
  abbrev pub BurnOutcome :
      K.AccountId → K.AccountId → ℕ → W C K → Result Error (Unit {0}) → W C K → Type 0
  BurnOutcome sender issuer amount w (ok _) w' =
      (asset : K.FungibleAsset) × (note : K.Note) × (request : K.TransactionRequest)
      × (tx : K.TransactionId) × (s : K.State) × (found : Found C K)
      × (request' : K.TransactionRequest) × (tx' : K.TransactionId) × (K.fungible_asset issuer
            amount
          ≡ ok asset)
      × ((K.create_burn_note sender issuer asset K.default_attachment w.state.0).0 ≡ ok note)
      × (K.build_own_output_notes (note ∷ []) ≡ ok request)
      × (K.get_consumable_notes (some issuer) s ≡ ok found)
      × (is_empty found ≡ false)
      × (K.build_consume_notes (notes_of C K found) ≡ ok request')
      × Traced C K w w' ((sender, request, ok tx) ∷ (issuer, request', ok tx') ∷ [])
  BurnOutcome sender issuer amount w (err e) w' =
      SendOutcome sender issuer amount w (err e) w'
      ⊎ ((v : W C K) × SendOutcome sender issuer amount w (ok tt) v
          × ConsumeOutcome C K issuer v (err e) w')

  -- The consumption after the sender's step.
  burnt :
      (sender issuer : K.AccountId) (amount : ℕ) (r : Result Error (Unit {0})) (u : Unit {0})
      (w v w' : W C K)
      → SendOutcome sender issuer amount w (ok u) v
      → ConsumeOutcome C K issuer v r w'
      → BurnOutcome sender issuer amount w r w'
  burnt sender issuer amount (ok x) u w v w' (asset, note, request, ea, en, er, sent)
        (s, found, request', shown, some_found, built, consumed) =
      (
        asset,
        note,
        request,
        sent.0,
        s,
        found,
        request',
        consumed.0,
        ea,
        en,
        er,
        shown,
        some_found,
        built,
        (
          ground (
            arith,
            append_assoc w.state.1 ((sender, request, ok sent.0) ∷ [])
                ((issuer, request', ok consumed.0) ∷ []),
          ),
          ground (
            arith,
            append_assoc w.out (transaction_link C (R C K) sent.0 ∷ [])
                (transaction_link C (R C K) consumed.0 ∷ []),
          ),
        ),
      )
  burnt sender issuer amount (err e) u w v w' sent ended = inr (v, sent, ended)

  unsent :
      (sender issuer : K.AccountId) (amount : ℕ) (r : Result Error (Unit {0})) (x : Error)
      (w w' : W C K)
      → r ≡ err x
      → SendOutcome sender issuer amount w (err x) w'
      → BurnOutcome sender issuer amount w r w'
  unsent sender issuer amount (ok u) x w w' e ended = absurd (ground arith)
  unsent sender issuer amount (err y) x w w' e ended = inl ended

  -- A burn that returns without an error has made two submissions, both answered with a transaction:
  -- first the sender's, of the request with the burn note made of the issuer's asset of that amount, then
  -- the issuer's, of the request that consumes notes shown for the issuer, of which there were some. A
  -- burn that fails has made none; or just the sender's, answered with an error; or the sender's, answered
  -- with a transaction, and then none or just the issuer's, answered with an error. A link was printed for
  -- each submission answered with a transaction, and nothing else.
  pub burn_tokens-submits :
      (sender issuer : K.AccountId) (amount : ℕ) (r : Result Error (Unit {0})) (w w' : W C K)
      → burn_tokens C (R C K) sender issuer amount w ≡ (r, w')
      → BurnOutcome sender issuer amount w r w'
  unfolding burn_tokens
  burn_tokens-submits sender issuer amount r w w' h =
      let send = send_burn_note C (R C K) sender issuer amount w in
      elim (Result-cases send.0) [
        | inl (u, e) ↦
            burnt sender issuer amount r u w send.1 w'
              (send_burn_note-outcome sender issuer amount (ok u) w send.1 (λ i. (e i, send.1)))
              (consume_available-outcome C K (burn_messages C (R C K)) issuer r send.1 w'
                (ground arith))
        | inr (x, e) ↦
            unsent sender issuer amount r x w w' (ground arith)
              (send_burn_note-outcome sender issuer amount (err x) w w' (ground arith))
      ]

  -- Consuming the notes of an account without an error has made one submission, by the account, of the
  -- request that consumes notes that the client showed for it, of which there were some, and it was
  -- answered with a transaction. A failure has made no submission, or just one like that, which was
  -- answered with an error. A link was printed for a submission answered with a transaction, and nothing
  -- else.
  pub consume_notes-submits :
      (id : K.AccountId) (r : Result Error (Unit {0})) (w w' : W C K)
      → consume_notes C (R C K) id w ≡ (r, w')
      → ConsumeOutcome C K id w r w'
  unfolding consume_notes
  consume_notes-submits id r w w' h =
      consume_available-outcome C K (consume_messages C K id) id r w w' h
