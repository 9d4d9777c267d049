-- ===== src/Operations/Reads.antt =====
-- `read_balance`, `read_total_supply`, `read_token_metadata` and `sync_and_track`.
pub mod Tracking
use brale_miden_demo.Base.{ℕ, ◌%◌, ◌^◌, ◌++◌}
use brale_miden_demo.Text.{Str, text}
use brale_miden_demo.Crypto.{Crypto}
use brale_miden_demo.Client.{Client, full, partial}
use brale_miden_demo.Operations.Monad.{
  Action, ◌>>=◌, ◌>>◌, pure, bail, lift, context, some_or, call, query,
}

module _ (C : Crypto) (K : Client C) where
  -- The record of an account, if it is tracked in full: the first lines of the three reads, with what
  -- they say of a store that fails, of an account that is missing and of one that is partial.
  unfoldable pub full_account : Str → Str → Str → K.AccountId → Action K.State K.Account
  full_account failed missing whose id = do
    found ← context failed (query (K.get_account id))
    record' ← some_or missing found
    elim (K.account_data record') [
      | full account ↦ pure account
      | partial ↦ bail (whose ++ (K.display_account id ++ text " is only partially tracked"))
    ]

  unfoldable pub read_balance : K.AccountId → K.AccountId → Action K.State ℕ
  read_balance account_id issuer_id = do
    account ←
        full_account (text "failed to get account") (text "account not found") (text "account ")
          account_id
    balance ←
        context (text "failed to read balance from vault") (lift (K.get_balance account issuer_id))
    pure balance

  abbrev pub issuer_account : K.AccountId → Action K.State K.Account
  issuer_account =
      full_account (text "failed to get issuer account") (text "issuer account not found")
        (text "issuer ")

  unfoldable pub read_total_supply : K.AccountId → Action K.State ℕ
  read_total_supply issuer_id = do
    account ← issuer_account issuer_id
    issuance_slot ←
        context (text "failed to read issuance storage slot")
          (lift (K.get_item account K.faucet_sysdata_slot))
    let total_supply = K.as_int issuance_slot.0
    pure total_supply

  pub record TokenMetadata : Type 0 where
    pub symbol : K.TokenSymbol
    pub decimals : ℕ
    pub max_supply : ℕ

  -- `as u8` keeps the lowest byte.
  unfoldable pub read_token_metadata : K.AccountId → Action K.State TokenMetadata
  read_token_metadata issuer_id = do
    account ← issuer_account issuer_id
    metadata_word ←
        context (text "failed to read metadata storage slot")
          (lift (K.get_item account K.metadata_slot))
    let max_supply = K.as_int metadata_word.0
    let decimals = K.as_int metadata_word.1 % 2 ^ 8
    symbol ←
        context (text "invalid token symbol in faucet metadata")
          (lift (K.token_symbol_of metadata_word.2))
    pure (record { symbol = symbol; decimals = decimals; max_supply = max_supply })

  unfoldable pub sync_and_track : Action K.State (Unit {0})
  sync_and_track = do context (text "failed to sync state") (call K.sync_state); pure tt
