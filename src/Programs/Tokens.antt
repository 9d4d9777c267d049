-- ===== src/Programs/Tokens.antt =====
-- integration/src/bin/mint.rs, burn.rs and transfer.rs.
pub mod Submissions
pub mod Transfers
use brale_miden_demo.Base.{ℕ, List, ◌++◌}
use brale_miden_demo.Text.{Str, text}
use brale_miden_demo.Decimal.{to_string}
use brale_miden_demo.Crypto.{Crypto}
use brale_miden_demo.Client.{Client}
use brale_miden_demo.Config.{Config, Env, from_env}
use brale_miden_demo.Keystore.{FilesystemKeyStore}
use brale_miden_demo.Operations.Monad.{Action, ◌>>=◌, ◌>>◌, context, call, println}
use brale_miden_demo.Operations.Tokens.{mint_tokens, burn_tokens, transfer_tokens}
use brale_miden_demo.Programs.Setup.{Machine, Exit, run}
use brale_miden_demo.Programs.Arguments.{account_and_amount, transfer_arguments}

module _ (C : Crypto) (F : FilesystemKeyStore C) (K : Client C) (M : Machine C F K) where
  -- An operation after a sync, and the line that reports it.
  abbrev pub synced_then : Action K.State (Unit {0}) → Str → Action K.State (Unit {0})
  synced_then operation line = do
    context (text "failed to sync state") (call K.sync_state)
    operation
    println line

  abbrev pub minted_line : K.AccountId → K.AccountId → ℕ → Str
  minted_line issuer_id target_id amount =
      text "Minted "
      ++ (to_string amount
          ++ (text " tokens from "
              ++ (K.display_account issuer_id ++ (text " to " ++ K.display_account target_id))))

  unfoldable pub mint : Env → List Str → M.Host → Exit C F K M
  mint env args =
      let config = from_env env in
      run C F K M
        (account_and_amount C F K M (text "usage: mint <target_account_id> <amount>")
          (text "invalid target account ID") config args)
        config
        (λ (issuer_id, target_id, amount) _.
          synced_then (mint_tokens C K issuer_id target_id amount)
            (minted_line issuer_id target_id amount))

  abbrev pub burned_line : K.AccountId → K.AccountId → ℕ → Str
  burned_line issuer_id sender_id amount =
      text "Burned "
      ++ (to_string amount
          ++ (text " tokens (sender: "
              ++ (K.display_account sender_id
                  ++ (text ", issuer: " ++ (K.display_account issuer_id ++ text ")")))))

  unfoldable pub burn : Env → List Str → M.Host → Exit C F K M
  burn env args =
      let config = from_env env in
      run C F K M
        (account_and_amount C F K M (text "usage: burn <sender_account_id> <amount>")
          (text "invalid sender account ID") config args)
        config
        (λ (issuer_id, sender_id, amount) _.
          synced_then (burn_tokens C K sender_id issuer_id amount)
            (burned_line issuer_id sender_id amount))

  abbrev pub transferred_line : K.AccountId → K.AccountId → ℕ → Str
  transferred_line sender_id recipient_id amount =
      text "Transferred "
      ++ (to_string amount
          ++ (text " tokens from "
              ++ (K.display_account sender_id ++ (text " to " ++ K.display_account recipient_id))))

  unfoldable pub transfer : Env → List Str → M.Host → Exit C F K M
  transfer env args =
      let config = from_env env in
      run C F K M (transfer_arguments C F K M config args) config
        (λ (issuer_id, sender_id, recipient_id, amount) _.
          synced_then (transfer_tokens C K sender_id recipient_id issuer_id amount)
            (transferred_line sender_id recipient_id amount))
