-- ===== src/Programs/Accounts.antt =====
-- integration/src/bin/create_account.rs, deploy_issuer.rs, read_balance.rs and read_supply.rs.
pub mod Deployed
pub mod Reading
pub mod Showing
pub mod Created
use brale_miden_demo.Base.{List, ◌++◌}
use brale_miden_demo.Text.{Str, text}
use brale_miden_demo.Decimal.{to_string}
use brale_miden_demo.Crypto.{Crypto}
use brale_miden_demo.Client
use brale_miden_demo.Client.{Client}
use brale_miden_demo.Config.{Env, from_env}
use brale_miden_demo.Keystore.{FilesystemKeyStore}
use brale_miden_demo.Operations.Monad.{◌>>=◌, ◌>>◌, pure, println}
use brale_miden_demo.Operations.Accounts.{create_wallet_account, deploy_issuer_account}
use brale_miden_demo.Operations.Reads
use brale_miden_demo.Programs.Setup.{Machine, Prepared, Exit, run}
use brale_miden_demo.Programs.Arguments.{deploy_arguments, balance_arguments, supply_arguments}

module _ (C : Crypto) (F : FilesystemKeyStore C) (K : Client C) (M : Machine C F K) where
  unfoldable pub create_account : Env → M.Host → Exit C F K M
  create_account env = run C F K M (pure tt) (from_env env) (λ _ p. do
    account ← create_wallet_account C K (Prepared.public_key p) Client.AccountStorageMode.public
    println (text "Wallet account created: " ++ K.display_account (K.account_id account)))

  unfoldable pub deploy_issuer : Env → List Str → M.Host → Exit C F K M
  deploy_issuer env args =
      let d = deploy_arguments args in
      run C F K M (pure tt) (from_env env) (λ _ p. do
        account ← deploy_issuer_account C K (Prepared.public_key p) d.symbol d.decimals d.max_supply
        println (text "Issuer account deployed: " ++ K.display_account (K.account_id account))
        println (
            text "Symbol: "
            ++ (d.symbol
                ++ (text ", Decimals: "
                    ++ (to_string d.decimals
                        ++ (text ", Max supply: " ++ to_string d.max_supply))))))

  unfoldable pub read_balance : Env → List Str → M.Host → Exit C F K M
  read_balance env args =
      let config = from_env env in
      run C F K M (balance_arguments C F K M config args) config (λ (issuer_id, account_id) _. do
        balance ← Reads.read_balance C K account_id issuer_id
        println (
            text "Account "
            ++ (K.display_account account_id ++ (text " balance: " ++ to_string balance))))

  unfoldable pub read_supply : Env → M.Host → Exit C F K M
  read_supply env =
      let config = from_env env in
      run C F K M (supply_arguments C F K M config) config (λ issuer_id _. do
        total_supply ← Reads.read_total_supply C K issuer_id
        println (
            text "Issuer "
            ++ (K.display_account issuer_id ++ (text " total supply: " ++ to_string total_supply))))
