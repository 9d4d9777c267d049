-- ===== src/Operations/Recorded/Submissions.antt =====
-- Which transactions an operation submits, from what, and that it prints one link for each.
use brale_miden_demo.Base.{
  ℕ, [], ◌∷◌, ◌≡◌, ◌⊎◌, inl, inr, append-nil, Result, ok, err, Result-cases, arith,
}
use brale_miden_demo.Text.{Str, text}
use brale_miden_demo.Crypto.{Crypto}
use brale_miden_demo.Client
use brale_miden_demo.Client.{Client, Error}
use brale_miden_demo.Operations.Monad.{World}
use brale_miden_demo.Operations.Links.{chain, submit}
use brale_miden_demo.Operations.Tokens.{mint_tokens, transfer_tokens}
use brale_miden_demo.Operations.Recorded.{Recording, keep, recorded, Traced}

module _ (C : Crypto) (K : Client C) where
  abbrev pub R : Client C
  R = recorded C K

  abbrev pub W : Type 0
  W = World (Recording C K)

  abbrev pub Submitted : W → K.AccountId → K.TransactionRequest → W → Type 0
  Submitted w id request w' = (tx : K.TransactionId) × Traced C K w w' ((id, request, ok tx) ∷ [])

  -- One submission was made, and answered with an error.
  abbrev pub Refused : W → K.AccountId → K.TransactionRequest → W → Type 0
  Refused w id request w' = (e : Error) × Traced C K w w' ((id, request, err e) ∷ [])

  pub submit-ok :
      (failed : Str) (id : K.AccountId) (request : K.TransactionRequest) (w w' : W)
      → submit C R failed id request w ≡ (ok tt, w')
      → Submitted w id request w'
  unfolding submit
  submit-ok failed id request w w' h =
      elim (Result-cases (K.submit_new_transaction id request w.state.0).0) [
        | inl (tx, e) ↦ (tx, (ground arith, ground arith))
        | inr (x, e) ↦ absurd (ground arith)
      ]

  pub submit-err :
      (failed : Str) (id : K.AccountId) (request : K.TransactionRequest) (e : Error) (w w' : W)
      → submit C R failed id request w ≡ (err e, w')
      → Refused w id request w'
  unfolding submit
  submit-err failed id request e w w' h =
      elim (Result-cases (K.submit_new_transaction id request w.state.0).0) [
        | inl (tx, eo) ↦ absurd (ground arith)
        | inr (x, eo) ↦ (x, (ground arith, ground (arith, append-nil w.out)))
      ]

  -- The world in which the client has gone on to a state and nothing was submitted or printed.
  abbrev pub moved : W → K.State → W
  moved w s = record w { state = (s, w.state.1) }

  -- An asset, a request made of it by the client, and the submission of the request.
  module _ {A : Type 0} (id : K.AccountId) (asset : Result Error A)
      (build : A → K.State → Result Error K.TransactionRequest × K.State) where
    abbrev pub ChainOutcome : W → Result Error (Unit {0}) → W → Type 0
    ChainOutcome w (ok _) w' =
        (a : A) × (request : K.TransactionRequest) × (asset ≡ ok a)
        × ((build a w.state.0).0 ≡ ok request)
        × Submitted w id request w'
    ChainOutcome w (err _) w' =
        Traced C K w w' []
        ⊎ ((a : A) × (request : K.TransactionRequest) × (asset ≡ ok a)
            × ((build a w.state.0).0 ≡ ok request)
            × Refused w id request w')

    nothing_done :
        (r : Result Error (Unit {0})) (e : Error) (w w' : W)
        → r ≡ err e
        → (w'.state.1 ≡ w.state.1) × (w'.out ≡ w.out)
        → ChainOutcome w r w'
    nothing_done (ok u) e w w' h same = absurd (ground arith)
    nothing_done (err x) e w w' h same =
        inl (ground (arith, append-nil w.state.1, append-nil w.out))

    chain-outcome :
        (no_asset no_request failed : Str) (r : Result Error (Unit {0})) (w w' : W)
        → chain C R id asset (λ a. keep C K (build a)) no_asset no_request failed w ≡ (r, w')
        → ChainOutcome w r w'
    chain-outcome no_asset no_request failed r w w' h = elim (Result-cases asset) [
      | inl (a, ea) ↦ elim (Result-cases (build a w.state.0).0) [
        | inl (request, er) ↦ submitted a request ea er r h
        | inr (x, er) ↦ nothing_done r (no_request ∷ x) w w' (ground arith) (ground arith)
      ]
      | inr (x, ea) ↦ nothing_done r (no_asset ∷ x) w w' (ground arith) (ground arith)
    ]
      where
        submitted :
            (a : A) (request : K.TransactionRequest)
            → asset ≡ ok a
            → (build a w.state.0).0 ≡ ok request
            → (r : Result Error (Unit {0}))
            → chain C R id asset (λ a. keep C K (build a)) no_asset no_request failed w ≡ (r, w')
            → ChainOutcome w r w'
        submitted a request ea er (ok u) h = (
          a,
          request,
          ea,
          er,
          submit-ok failed id request (moved w (build a w.state.0).1) w' (ground arith),
        )
        submitted a request ea er (err e) h = inr (
          a,
          request,
          ea,
          er,
          submit-err failed id request e (moved w (build a w.state.0).1) w' (ground arith),
        )

  -- A mint that returns without an error has made one submission, by the issuer, of the request that the
  -- client made of the issuer's asset of that amount, the target and a private note, and it was answered
  -- with a transaction. One that fails has made no submission, or just this one, which was answered with
  -- an error. A link was printed for a submission answered with a transaction, and nothing else.
  pub mint_tokens-submits :
      (issuer target : K.AccountId) (amount : ℕ) (r : Result Error (Unit {0})) (w w' : W)
      → mint_tokens C R issuer target amount w ≡ (r, w')
      → ChainOutcome issuer
          (K.fungible_asset issuer amount)
          (λ asset. K.build_mint_fungible_asset asset target Client.NoteType.private)
          w
          r
          w'
  unfolding mint_tokens
  mint_tokens-submits issuer target amount r w w' h =
      chain-outcome issuer (K.fungible_asset issuer amount)
        (λ asset. K.build_mint_fungible_asset asset target Client.NoteType.private)
        (text "failed to create fungible asset for minting")
        (text "failed to build mint transaction request") (text "failed to submit mint transaction")
        r w w' h

  -- A transfer that returns without an error has made one submission, by the sender, of the request that
  -- the client made of the issuer's asset of that amount, the sender, the recipient and a private note,
  -- and it was answered with a transaction. One that fails has made no submission, or just this one, which
  -- was answered with an error. A link was printed for a submission answered with a transaction, and
  -- nothing else.
  pub transfer_tokens-submits :
      (sender recipient issuer : K.AccountId) (amount : ℕ) (r : Result Error (Unit {0})) (w w' : W)
      → transfer_tokens C R sender recipient issuer amount w ≡ (r, w')
      → ChainOutcome sender
          (K.fungible_asset issuer amount)
          (λ asset. K.build_pay_to_id (asset ∷ []) sender recipient Client.NoteType.private)
          w
          r
          w'
  unfolding transfer_tokens
  transfer_tokens-submits sender recipient issuer amount r w w' h =
      chain-outcome sender (K.fungible_asset issuer amount)
        (λ asset. K.build_pay_to_id (asset ∷ []) sender recipient Client.NoteType.private)
        (text "failed to create fungible asset for transfer")
        (text "failed to build P2ID transfer request")
        (text "failed to submit transfer transaction") r w w' h
