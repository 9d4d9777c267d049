-- ===== src/Operations/Tokens.antt =====
-- `mint_tokens`, `burn_tokens` and `transfer_tokens`; amounts are `u64`.
use brale_miden_demo.Base.{ℕ, ◌++◌, [], ◌∷◌}
use brale_miden_demo.Text.{text}
use brale_miden_demo.Decimal.{to_string}
use brale_miden_demo.Crypto.{Crypto}
use brale_miden_demo.Client
use brale_miden_demo.Client.{Client}
use brale_miden_demo.Operations.Monad.{Action, ◌>>=◌, ◌>>◌, lift, context, call}
use brale_miden_demo.Operations.Links.{submit}
use brale_miden_demo.Operations.Notes.{Messages, max_attempts, consume_available}

module _ (C : Crypto) (K : Client C) where
  unfoldable pub mint_tokens : K.AccountId → K.AccountId → ℕ → Action K.State (Unit {0})
  mint_tokens issuer_id target_id amount = do
    asset ←
        context (text "failed to create fungible asset for minting")
          (lift (K.fungible_asset issuer_id amount))
    tx_request ←
        context (text "failed to build mint transaction request")
          (call (K.build_mint_fungible_asset asset target_id Client.NoteType.private))
    submit C K (text "failed to submit mint transaction") issuer_id tx_request

  abbrev pub burn_messages : Messages
  burn_messages = record {
    sync_failed = text "failed to sync state after burn note creation";
    read_failed = text "failed to get consumable notes for issuer";
    none_found =
        text "no consumable burn notes found for issuer after "
        ++ (to_string max_attempts ++ text " sync attempts");
    build_failed = text "failed to build consume burn notes transaction";
    submit_failed = text "failed to submit burn consumption transaction";
  }

  -- Step 1: the sender creates the burn note.
  unfoldable pub send_burn_note : K.AccountId → K.AccountId → ℕ → Action K.State (Unit {0})
  send_burn_note sender_id issuer_id amount = do
    asset ←
        context (text "failed to create fungible asset for burning")
          (lift (K.fungible_asset issuer_id amount))
    burn_note ←
        context (text "failed to create burn note")
          (call (K.create_burn_note sender_id issuer_id asset K.default_attachment))
    tx_request ←
        context (text "failed to build burn sender transaction")
          (lift (K.build_own_output_notes (burn_note ∷ [])))
    submit C K (text "failed to submit burn sender transaction") sender_id tx_request

  -- Step 2: the issuer waits for its notes and consumes them.
  unfoldable pub burn_tokens : K.AccountId → K.AccountId → ℕ → Action K.State (Unit {0})
  burn_tokens sender_id issuer_id amount = do
    send_burn_note sender_id issuer_id amount
    consume_available C K burn_messages issuer_id

  unfoldable pub transfer_tokens :
      K.AccountId → K.AccountId → K.AccountId → ℕ → Action K.State (Unit {0})
  transfer_tokens sender_id recipient_id issuer_id amount = do
    asset ←
        context (text "failed to create fungible asset for transfer")
          (lift (K.fungible_asset issuer_id amount))
    tx_request ←
        context (text "failed to build P2ID transfer request")
          (call (K.build_pay_to_id (asset ∷ []) sender_id recipient_id Client.NoteType.private))
    submit C K (text "failed to submit transfer transaction") sender_id tx_request
