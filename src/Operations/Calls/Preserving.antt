-- ===== src/Operations/Calls/Preserving.antt =====
-- Every operation keeps what every call of the client keeps.
use brale_miden_demo.Base.{ℕ, zero, suc, ◌+◌, refl, sym, subst, inl, inr, [], ◌∷◌, Result}
use brale_miden_demo.Text.{Str, text}
use brale_miden_demo.Crypto.{Crypto}
use brale_miden_demo.Client
use brale_miden_demo.Client.{Client, Error}
use brale_miden_demo.Operations.Monad.{World, Action, ◌>>=◌, lift, context, call}
use brale_miden_demo.Operations.Links.{chain, submit}
use brale_miden_demo.Operations.Notes.{
  Messages, Found, max_attempts, await_rounds, await_notes, notes_of, consumable_notes,
  consume_available, consume_messages, consume_notes,
}
use brale_miden_demo.Operations.Notes.Polling.{round-cases}
use brale_miden_demo.Operations.Tokens.{
  mint_tokens, transfer_tokens, send_burn_note, burn_tokens, burn_messages,
}
use brale_miden_demo.Operations.Calls.{
  Call, synced, slept, built_mint, built_pay, built_burn, Stable, Keeps, then-Keeps, next-Keeps,
  quiet-Keeps, call-Keeps, submit-Keeps,
}

module _ (C : Crypto) (K : Client C) (P : World K.State → Type 0) (kept : Stable C K P) where
  lift-Keeps :
      {T : Type 0} (message : Str) (r : Result Error T)
      → Keeps C K P kept (context message (lift {S = K.State} r))
  lift-Keeps message r = quiet-Keeps C K P kept (context message (lift r)) (λ w. refl)

  -- An asset, a request made of it, and the submission of the request.
  chain-Keeps :
      {T : Type 0} (no_asset no_request failed : Str) (id : K.AccountId) (asset : Result Error T)
      (build : T → K.State → Result Error K.TransactionRequest × K.State)
      → ((a : T) (s : K.State) → Call C K s (build a s).1)
      → Keeps C K P kept (chain C K id asset build no_asset no_request failed)
  chain-Keeps no_asset no_request failed id asset build calls =
      then-Keeps C K P kept (context no_asset (lift asset))
        (λ a. context no_request (call (build a)) >>= submit C K failed id)
        (lift-Keeps no_asset asset)
        (λ a.
          then-Keeps C K P kept (context no_request (call (build a))) (submit C K failed id)
            (call-Keeps C K P kept no_request (build a) (calls a))
            (λ request. submit-Keeps C K P kept failed id request))

  pub mint_tokens-Keeps :
      (issuer target : K.AccountId) (n : ℕ) → Keeps C K P kept (mint_tokens C K issuer target n)
  unfolding mint_tokens
  mint_tokens-Keeps issuer target n =
      chain-Keeps (text "failed to create fungible asset for minting")
        (text "failed to build mint transaction request") (text "failed to submit mint transaction")
        issuer (K.fungible_asset issuer n)
        (λ asset. K.build_mint_fungible_asset asset target Client.NoteType.private)
        (λ asset s. built_mint asset target Client.NoteType.private refl)

  pub transfer_tokens-Keeps :
      (sender recipient issuer : K.AccountId) (n : ℕ)
      → Keeps C K P kept (transfer_tokens C K sender recipient issuer n)
  unfolding transfer_tokens
  transfer_tokens-Keeps sender recipient issuer n =
      chain-Keeps (text "failed to create fungible asset for transfer")
        (text "failed to build P2ID transfer request")
        (text "failed to submit transfer transaction") sender (K.fungible_asset issuer n)
        (λ asset. K.build_pay_to_id (asset ∷ []) sender recipient Client.NoteType.private)
        (λ asset s. built_pay (asset ∷ []) sender recipient Client.NoteType.private refl)

  pub send_burn_note-Keeps :
      (sender issuer : K.AccountId) (n : ℕ) → Keeps C K P kept (send_burn_note C K sender issuer n)
  unfolding send_burn_note
  send_burn_note-Keeps sender issuer n =
      then-Keeps C K P kept (context no_asset (lift (K.fungible_asset issuer n)))
        (λ a. made a >>= rest) (lift-Keeps no_asset (K.fungible_asset issuer n))
        (λ a.
          then-Keeps C K P kept (made a) rest
            (call-Keeps C K P kept no_note (K.create_burn_note sender issuer a K.default_attachment)
              (λ s. built_burn sender issuer a K.default_attachment refl))
            (λ note.
              then-Keeps C K P kept
                (context no_request (lift (K.build_own_output_notes (note ∷ []))))
                (submit C K failed sender)
                (lift-Keeps no_request (K.build_own_output_notes (note ∷ [])))
                (λ request. submit-Keeps C K P kept failed sender request)))
    where
      no_asset : Str
      no_asset = text "failed to create fungible asset for burning"

      no_note : Str
      no_note = text "failed to create burn note"

      no_request : Str
      no_request = text "failed to build burn sender transaction"

      failed : Str
      failed = text "failed to submit burn sender transaction"

      made : K.FungibleAsset → Action K.State K.Note
      made a = context no_note (call (K.create_burn_note sender issuer a K.default_attachment))

      rest : K.Note → Action K.State (Unit {0})
      rest note =
          context no_request (lift (K.build_own_output_notes (note ∷ [])))
          >>= submit C K failed sender

  await_rounds-Keeps :
      (most : ℕ) (m : Messages) (id : K.AccountId) (left attempt : ℕ) (w : World K.State)
      → P w
      → P (await_rounds C K most m id left attempt w).1
  unfolding await_rounds
  await_rounds-Keeps most m id zero attempt w h = h
  await_rounds-Keeps most m id (suc left) attempt w h =
      let s = (K.sync_state w.state).1 in
      let h' : P (record w { state = s }) = kept.called w s (synced refl) h in
      elim (round-cases C K most m id left attempt w) [
        | inl ended ↦ subst P (sym ended) h'
        | inr more ↦
            subst (λ p. P p.1) (sym more)
              (await_rounds-Keeps most m id left (attempt + 1) (record w { state = K.sleep 3 s })
                (kept.called (record w { state = s }) (K.sleep 3 s) (slept 3 refl) h'))
      ]

  pub await_notes-Keeps :
      (most : ℕ) (m : Messages) (id : K.AccountId) → Keeps C K P kept (await_notes C K most m id)
  unfolding await_notes
  await_notes-Keeps most m id = record { holds = await_rounds-Keeps most m id most 1 }

  pub consume_available-Keeps :
      (m : Messages) (id : K.AccountId) → Keeps C K P kept (consume_available C K m id)
  unfolding consume_available
  consume_available-Keeps m id =
      next-Keeps C K P kept (await_notes C K max_attempts m id)
        (consumable_notes C K m.read_failed id >>= built) (await_notes-Keeps max_attempts m id)
        (then-Keeps C K P kept (consumable_notes C K m.read_failed id) built
          (quiet-Keeps C K P kept (consumable_notes C K m.read_failed id) (λ w. refl))
          (λ found.
            then-Keeps C K P kept
              (context m.build_failed (lift (K.build_consume_notes (notes_of C K found))))
              (submit C K m.submit_failed id)
              (lift-Keeps m.build_failed (K.build_consume_notes (notes_of C K found)))
              (λ request. submit-Keeps C K P kept m.submit_failed id request)))
    where
      built : Found C K → Action K.State (Unit {0})
      built found =
          context m.build_failed (lift (K.build_consume_notes (notes_of C K found)))
          >>= submit C K m.submit_failed id

  pub consume_notes-Keeps : (id : K.AccountId) → Keeps C K P kept (consume_notes C K id)
  unfolding consume_notes
  consume_notes-Keeps id = consume_available-Keeps (consume_messages C K id) id

  pub burn_tokens-Keeps :
      (sender issuer : K.AccountId) (n : ℕ) → Keeps C K P kept (burn_tokens C K sender issuer n)
  unfolding burn_tokens
  burn_tokens-Keeps sender issuer n =
      next-Keeps C K P kept (send_burn_note C K sender issuer n)
        (consume_available C K (burn_messages C K) issuer) (send_burn_note-Keeps sender issuer n)
        (consume_available-Keeps (burn_messages C K) issuer)
