-- ===== src/Helpers/Accounts.antt =====
-- `create_account_from_package`, `create_testing_account_from_package` and
-- `create_basic_wallet_account`.
pub mod Outcomes
use brale_miden_demo.Base.{[], ◌∷◌, ◌++◌, false, replicate, Result, returned, ok, err, map_err}
use brale_miden_demo.Text.{Str, text}
use brale_miden_demo.Crypto.{Crypto}
use brale_miden_demo.Client.{Client}
use brale_miden_demo.Keystore.{FilesystemKeyStore}
use brale_miden_demo.Operations.Monad.{World}
use brale_miden_demo.Effects.{Run, ◌>>=◌, ◌>>◌, pure, context, call, draw, wrapped}
use brale_miden_demo.Helpers.Toolchain
use brale_miden_demo.Helpers.Toolchain.{Toolchain, no_auth, auth_falcon512_rpo}
use brale_miden_demo.Helpers.Components.{AccountCreationConfig, account_component_from_package}

module _ (C : Crypto) (F : FilesystemKeyStore C) (K : Client C) (T : Toolchain C F K) where
  -- `println!`
  abbrev print : Str → Run (World K.State) (Unit {0})
  print line w = (returned (ok tt), record w { out = w.out ++ (line ∷ []) })

  -- The methods of the client under a world.
  abbrev at_client : {A : Type 0} → (K.State → A × K.State) → World K.State → A × World K.State
  at_client f w = let (a, s) = f w.state in (a, record w { state = s })

  abbrev component_of :
      {S : Type 0} → T.Package → AccountCreationConfig C F K T → Run S T.AccountComponent
  component_of package' config =
      wrapped (text "Failed to create account component from package")
        (account_component_from_package C F K T package' config)

  unfoldable pub create_account_from_package :
      T.Package → AccountCreationConfig C F K T → Run (World K.State) K.Account
  create_account_from_package package' config = do
    account_component ← component_of package' config
    init_seed ← draw (at_client K.fill_bytes)
    account ← context (text "Failed to build account") (
        T.build (record {
          init_seed = init_seed;
          account_type = config.account_type;
          storage_mode = config.storage_mode;
          component = Toolchain.component account_component;
          auth_component = no_auth;
        }))
    print (text "Account ID: " ++ T.debug_account (K.account_id account))
    call (text "Failed to add account to client") (at_client (K.add_account account false))
    pure account

  unfoldable pub create_testing_account_from_package :
      {S : Type 0} → T.Package → AccountCreationConfig C F K T → Run S K.Account
  create_testing_account_from_package package' config = do
    account_component ← component_of package' config
    context (text "Failed to build account") (
        T.build_existing (record {
          init_seed = replicate 32 3;
          account_type = config.account_type;
          storage_mode = config.storage_mode;
          component = Toolchain.component account_component;
          auth_component = no_auth;
        }))

  -- The client and the key store that a wallet is made with.
  pub record Session : Type 0 where
    pub client : K.State
    pub keystore : F.Store

  abbrev of_client : {A : Type 0} → (K.State → A × K.State) → Session → A × Session
  of_client f s = let (a, c) = f s.client in (a, record s { client = c })

  abbrev of_keystore : {A : Type 0} → (F.Store → A × F.Store) → Session → A × Session
  of_keystore f s = let (a, k) = f s.keystore in (a, record s { keystore = k })

  unfoldable pub create_basic_wallet_account : AccountCreationConfig C F K T → Run Session K.Account
  create_basic_wallet_account config = do
    init_seed ← draw (of_client K.fill_bytes)
    key_pair ← draw (of_client T.falcon_key)
    account ← context (text "Failed to build basic wallet account") (
        T.build (record {
          init_seed = init_seed;
          account_type = config.account_type;
          storage_mode = config.storage_mode;
          component = Toolchain.basic_wallet;
          auth_component = auth_falcon512_rpo (T.falcon_commitment key_pair);
        }))
    call (text "Failed to add account to client") (of_client (K.add_account account false))
    call (text "Failed to add key to keystore") (of_keystore (λ k. T.add_falcon_key k key_pair))
    pure account
