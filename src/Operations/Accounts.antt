-- ===== src/Operations/Accounts.antt =====
-- Account creation: wallets and issuers.
use brale_miden_demo.Base.{ℕ, false, ok}
use brale_miden_demo.Text.{Str, text}
use brale_miden_demo.Crypto.{Crypto, Bytes}
use brale_miden_demo.Client
use brale_miden_demo.Client.{
  Client, AccountStorageMode, regular_account_immutable_code, fungible_faucet, basic_wallet,
  basic_fungible_faucet,
}
use brale_miden_demo.Operations.Links.{account_link}
use brale_miden_demo.Operations.Monad.{Action, ◌>>=◌, ◌>>◌, pure, lift, context, call, println}

module _ (C : Crypto) (K : Client C) where
  -- `client.rng().fill_bytes(&mut init_seed)`
  abbrev pub draw_seed : Action K.State Bytes
  draw_seed = call (λ s. let (seed, s') = K.fill_bytes s in (ok seed, s'))

  unfoldable pub create_wallet_account : C.PublicKey → AccountStorageMode → Action K.State K.Account
  create_wallet_account pub_key storage_mode = do
    init_seed ← draw_seed
    let pub_key_commitment = C.commitment_of (C.to_commitment pub_key)
    account ← context (text "failed to build wallet account") (
        lift (
          K.build_account (record {
            init_seed = init_seed;
            account_type = regular_account_immutable_code;
            storage_mode = storage_mode;
            component = basic_wallet;
            auth_component = pub_key_commitment;
          })))
    context (text "failed to add wallet account to client") (call (K.add_account account false))
    println (account_link C K (K.account_id account))
    pure account

  -- `decimals` is a `u8` and `max_supply` a `u64`.
  unfoldable pub deploy_issuer_account : C.PublicKey → Str → ℕ → ℕ → Action K.State K.Account
  deploy_issuer_account pub_key symbol decimals max_supply = do
    init_seed ← draw_seed
    token_symbol ← context (text "invalid token symbol") (lift (K.token_symbol symbol))
    let pub_key_commitment = C.commitment_of (C.to_commitment pub_key)
    faucet_component ←
        context (text "failed to create faucet component")
          (lift (K.faucet_component token_symbol decimals (K.felt max_supply)))
    account ← context (text "failed to build issuer account") (
        lift (
          K.build_account (record {
            init_seed = init_seed;
            account_type = fungible_faucet;
            storage_mode = Client.AccountStorageMode.public;
            component = basic_fungible_faucet faucet_component;
            auth_component = pub_key_commitment;
          })))
    context (text "failed to add issuer account to client") (call (K.add_account account false))
    println (account_link C K (K.account_id account))
    pure account
