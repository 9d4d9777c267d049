-- ===== src/Ledger/Online/Completing.antt =====
-- The operations succeed where the ledger permits what they ask for, and nobody else acts on the token.
use brale_miden_demo.Base.{
  ℕ, ◌≤◌, ◌<◌, ◌^◌, List, [], ◌∷◌, ◌≡◌, refl, sym, ◌∙◌, ap, subst, map, Result, ok, err, arith,
}
use brale_miden_demo.Text.{Str, text}
use brale_miden_demo.Crypto.{Crypto}
use brale_miden_demo.Client
use brale_miden_demo.Client.{Client, Error}
use brale_miden_demo.Operations.Monad.{World}
use brale_miden_demo.Operations.Links.{chain, submit}
use brale_miden_demo.Operations.Tokens.{mint_tokens, transfer_tokens, send_burn_note}
use brale_miden_demo.Operations.Notes.{
  Messages, max_attempts, await_notes, notes_of, consume_available,
}
use brale_miden_demo.Operations.Notes.Polling.{IsOk, synced, after, await_notes-found}
use brale_miden_demo.Operations.Calls.{
  Call, built_mint, built_pay, built_burn, OnState, Kept-Stable,
}
use brale_miden_demo.Operations.Calls.Preserving.{await_notes-Keeps}
use brale_miden_demo.Ledger.{Note, Ledger, Order, issue, output, consume, Step}
use brale_miden_demo.Ledger.Laws.{Laws, payment, burn_order}
use brale_miden_demo.Ledger.Operations.{seen}
use brale_miden_demo.Ledger.Alone.{own, Alone, await_notes-same}
use brale_miden_demo.Ledger.Online.{Online, Signing, Active, Active-kept}

pub IsOk-ok {ℓ κ} : {E : Type ℓ} {A : Type κ} (r : Result E A) → IsOk r → (a : A) × (r ≡ ok a)
IsOk-ok (ok a) h = (a, refl)
IsOk-ok (err e) h = absurd h

module _ (C : Crypto) (K : Client C) (issuer : K.AccountId) (H : Laws C K issuer)
    (A : Alone C K issuer H) (G : Signing C K) (O : Online C K issuer H G) where
  -- The order is a transaction that the ledger permits the account, within the cap.
  abbrev pub Permitted : K.AccountId → Order K.AccountId → Ledger K.AccountId → Type 0
  Permitted id o l =
      (l' : Ledger K.AccountId) × Step ⦃e = H.account_eq⦄ issuer id o l l'
      × (l'.supply ≤ O.max_supply)

  submit-ok :
      (failed : Str) (id : K.AccountId) (request : K.TransactionRequest) (o : Order K.AccountId)
      (w : World K.State)
      → Active C K G id w.state
      → H.order request ≡ o
      → Permitted id o (seen C K issuer H w)
      → (submit C K failed id request w).0 ≡ ok tt
  unfolding submit
  submit-ok failed id request o w tracked asked (l', s, fits) =
      let (tx, e) = IsOk-ok (K.submit_new_transaction id request w.state).0 (
        O.accepted id request w.state l' tracked
          (subst (λ p. Step ⦃e = H.account_eq⦄ issuer id p (seen C K issuer H w) l') (sym asked) s)
          fits) in
      ground arith

  -- An asset, a request made of it, and the submission of the request.
  chain-ok :
      {T : Type 0} (no_asset no_request failed : Str) (id : K.AccountId) (asset : Result Error T)
      (build : T → K.State → Result Error K.TransactionRequest × K.State) (o : Order K.AccountId)
      (w : World K.State)
      → IsOk asset
      → ((a : T) → asset ≡ ok a → IsOk (build a w.state).0)
      → ((a : T) (request : K.TransactionRequest)
          → asset ≡ ok a
          → (build a w.state).0 ≡ ok request
          → H.order request ≡ o)
      → ((a : T) → H.view (build a w.state).1 ≡ H.view w.state)
      → ((a : T) → Call C K w.state (build a w.state).1)
      → Active C K G id w.state
      → Permitted id o (seen C K issuer H w)
      → (chain C K id asset build no_asset no_request failed w).0 ≡ ok tt
  chain-ok no_asset no_request failed id asset build o w asset_ok build_ok ordered quiet calls
        tracked permitted =
      let (a, ea) = IsOk-ok asset asset_ok in
      let s = (build a w.state).1 in
      let (request, er) = IsOk-ok (build a w.state).0 (build_ok a ea) in
      let sent : (submit C K failed id request (record w { state = s })).0 ≡ ok tt =
        submit-ok failed id request o (record w { state = s })
          (Active-kept C K G O.keeping id w.state s (calls a) tracked) (ordered a request ea er)
          (subst (Permitted id o) (sym (quiet a)) permitted) in
      ground arith

  pub mint_tokens-ok :
      (target : K.AccountId) (n : ℕ) (w : World K.State)
      → n < 2 ^ 63
      → Active C K G issuer w.state
      → Permitted issuer (issue (payment target n)) (seen C K issuer H w)
      → (mint_tokens C K issuer target n w).0 ≡ ok tt
  unfolding mint_tokens
  mint_tokens-ok target n w small tracked permitted =
      chain-ok (text "failed to create fungible asset for minting")
        (text "failed to build mint transaction request") (text "failed to submit mint transaction")
        issuer (K.fungible_asset issuer n)
        (λ asset. K.build_mint_fungible_asset asset target Client.NoteType.private)
        (issue (payment target n)) w (O.asset_ok n small)
        (λ a ea. O.mint_ok n a target Client.NoteType.private w.state ea)
        (λ a request. H.mint_order n a target Client.NoteType.private w.state request)
        (λ a. H.mint_view a target Client.NoteType.private w.state)
        (λ a. built_mint a target Client.NoteType.private refl) tracked permitted

  pub transfer_tokens-ok :
      (sender recipient : K.AccountId) (n : ℕ) (w : World K.State)
      → n < 2 ^ 63
      → Active C K G sender w.state
      → Permitted sender (output (payment recipient n)) (seen C K issuer H w)
      → (transfer_tokens C K sender recipient issuer n w).0 ≡ ok tt
  unfolding transfer_tokens
  transfer_tokens-ok sender recipient n w small tracked permitted =
      chain-ok (text "failed to create fungible asset for transfer")
        (text "failed to build P2ID transfer request")
        (text "failed to submit transfer transaction") sender (K.fungible_asset issuer n)
        (λ asset. K.build_pay_to_id (asset ∷ []) sender recipient Client.NoteType.private)
        (output (payment recipient n)) w (O.asset_ok n small)
        (λ a ea. O.pay_ok n a sender recipient Client.NoteType.private w.state ea)
        (λ a request. H.pay_order n a sender recipient Client.NoteType.private w.state request)
        (λ a. H.pay_view (a ∷ []) sender recipient Client.NoteType.private w.state)
        (λ a. built_pay (a ∷ []) sender recipient Client.NoteType.private refl) tracked permitted

  pub send_burn_note-ok :
      (sender : K.AccountId) (n : ℕ) (w : World K.State)
      → n < 2 ^ 63
      → Active C K G sender w.state
      → Permitted sender (output (burn_order issuer n)) (seen C K issuer H w)
      → (send_burn_note C K sender issuer n w).0 ≡ ok tt
  unfolding send_burn_note
  send_burn_note-ok sender n w small tracked permitted =
      let (a, ea) = IsOk-ok (K.fungible_asset issuer n) (O.asset_ok n small) in
      let made = K.create_burn_note sender issuer a K.default_attachment w.state in
      let (note, en) = IsOk-ok made.0 (O.burn_ok n a sender w.state ea) in
      let (request, er) = IsOk-ok (K.build_own_output_notes (note ∷ [])) (O.output_ok note) in
      let failed = text "failed to submit burn sender transaction" in
      let sent : (submit C K failed sender request (record w { state = made.1 })).0 ≡ ok tt =
        submit-ok failed sender request (output (burn_order issuer n)) (record w { state = made.1 })
          (Active-kept C K G O.keeping sender w.state made.1
            (built_burn sender issuer a K.default_attachment refl) tracked)
          (H.output_order note request er
            ∙ ap (λ x. output x) (H.burn_value n a sender K.default_attachment w.state note ea en))
          (subst (Permitted sender (output (burn_order issuer n)))
            (sym (H.burn_view sender a K.default_attachment w.state)) permitted) in
      ground arith

  -- Notes that hold something, of which a request can be made.
  notes-IsOk :
      (notes : List K.Note) (n : Note K.AccountId) (rest : List (Note K.AccountId))
      → map H.note_value notes ≡ n ∷ rest
      → IsOk (K.build_consume_notes notes)
  notes-IsOk [] n rest h = absurd (ground arith)
  notes-IsOk (x ∷ notes) n rest h = O.consume_ok x notes

  pub consume_available-ok :
      (m : Messages) (id : K.AccountId) (w : World K.State) (n : Note K.AccountId)
      (rest : List (Note K.AccountId))
      → Active C K G id w.state
      → own H.account_eq id (seen C K issuer H w).notes ≡ n ∷ rest
      → Permitted id
          (consume (own H.account_eq id (seen C K issuer H w).notes))
          (seen C K issuer H w)
      → (consume_available C K m id w).0 ≡ ok tt
  unfolding consume_available
  consume_available-ok m id w n rest tracked owns permitted =
      let (k, f, fs, lt, waits, sync, shown) = O.delivered id w.state n rest tracked.0 owns in
      let s = synced C K id (after C K id k w.state) in
      let v : World K.State = record w { state = s } in
      let found : await_notes C K max_attempts m id w ≡ (ok tt, v) =
        await_notes-found C K id max_attempts m k w lt waits sync shown in
      let same : seen C K issuer H v ≡ seen C K issuer H w =
        ap (λ p. seen C K issuer H p.1) (sym found) ∙ await_notes-same C K issuer H A m id w in
      let there : Active C K G id s =
        subst (λ p. Active C K G id p.1.state) found
          ((await_notes-Keeps C K (OnState C K (Active C K G id))
              (Kept-Stable C K (Active C K G id) (Active-kept C K G O.keeping id)) max_attempts m
              id).holds
            w tracked) in
      let values =
        A.shown id s (f ∷ fs) shown refl
        ∙ ap (λ (x : Ledger K.AccountId). own H.account_eq id x.notes) same in
      let (request, er) =
        IsOk-ok (K.build_consume_notes (notes_of C K (f ∷ fs)))
          (notes-IsOk (notes_of C K (f ∷ fs)) n rest (values ∙ owns)) in
      let sent : (submit C K m.submit_failed id request v).0 ≡ ok tt =
        submit-ok m.submit_failed id request
          (consume (own H.account_eq id (seen C K issuer H w).notes)) v there
          (H.consume_order (notes_of C K (f ∷ fs)) request er ∙ ap (λ x. consume x) values)
          (subst (Permitted id (consume (own H.account_eq id (seen C K issuer H w).notes)))
            (sym same) permitted) in
      ground arith
