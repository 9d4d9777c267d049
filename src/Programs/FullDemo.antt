-- ===== src/Programs/FullDemo.antt =====
-- integration/src/bin/full_demo.rs: issuer and wallets, a mint, a transfer and a burn.
pub mod Ran
pub mod Executors
pub mod Steps
pub mod Moves
pub mod Amounts
pub mod Quiet
pub mod Printed
pub mod Tables
pub mod Reporting
pub mod Balances
pub mod Running
pub mod Completing
pub mod Creating
pub mod Created
pub mod Signing
pub mod Success
use brale_miden_demo.Base.{
  ◌==◌, ◌&&◌, ◌||◌, ℕ, Bool, true, false, List, [], ◌∷◌, ◌++◌, Result, ok, err, map_err,
  if◌then◌else◌,
}
use brale_miden_demo.Text.{Str, text}
use brale_miden_demo.Crypto.{Crypto}
use brale_miden_demo.Client
use brale_miden_demo.Client.{Client, Error}
use brale_miden_demo.Config.{Config, Env, from_env}
use brale_miden_demo.Display.BalanceTable.{print_balance_table}
use brale_miden_demo.Keystore
use brale_miden_demo.Keystore.{FilesystemKeyStore}
use brale_miden_demo.MockSigner
use brale_miden_demo.MockSigner.{as_signer, register_key}
use brale_miden_demo.Operations.Monad.{
  World, Action, ◌>>=◌, ◌>>◌, pure, lift, context, call, println,
}
use brale_miden_demo.Operations.Accounts.{create_wallet_account, deploy_issuer_account}
use brale_miden_demo.Operations.Notes.{consume_notes}
use brale_miden_demo.Operations.Tokens.{mint_tokens, burn_tokens, transfer_tokens}
use brale_miden_demo.Operations.Reads.{read_balance, read_total_supply}
use brale_miden_demo.Programs.Setup.{Machine, draw_key}

-- `args().any(|a| a == arg)`
abbrev same_text : Str → Str → Bool
same_text [] [] = true
same_text [] (d ∷ t) = false
same_text (c ∷ s) [] = false
same_text (c ∷ s) (d ∷ t) = (c == d) && same_text s t

abbrev pub has_arg : Str → List Str → Bool
has_arg arg [] = false
has_arg arg (a ∷ args) = same_text a arg || has_arg arg args

-- `println!` for each line of a text.
abbrev pub print_lines : {S : Type 0} → List Str → Action S (Unit {0})
print_lines lines w = (ok tt, record w { out = w.out ++ lines })

-- A line that starts with `\n` prints an empty line first.
abbrev pub heading : {S : Type 0} → Str → Action S (Unit {0})
heading line = print_lines ([] ∷ line ∷ [])

module _ (C : Crypto) (K : Client C) where
  unfoldable pub print_state : K.AccountId → K.AccountId → K.AccountId → Action K.State (Unit {0})
  print_state issuer_id wallet_a_id wallet_b_id = do
    supply ← read_total_supply C K issuer_id
    bal_a ← read_balance C K wallet_a_id issuer_id
    bal_b ← read_balance C K wallet_b_id issuer_id
    print_lines (print_balance_table (text "USDB") supply bal_a bal_b)

  -- Steps 1 and 2, and the sync after them.
  unfoldable pub create_accounts :
      C.PublicKey
      → C.PublicKey
      → C.PublicKey
      → Client.AccountStorageMode
      → Action K.State (K.Account × K.Account × K.Account)
  create_accounts issuer_pk wallet_a_pk wallet_b_pk storage_mode = do
    heading (text "=== Step 1: Deploy Issuer ===")
    issuer ← deploy_issuer_account C K issuer_pk (text "USDB") 6 1000000000000
    println (text "Issuer deployed: " ++ K.display_account (K.account_id issuer))
    heading (text "=== Step 2: Create Wallets ===")
    wallet_a ← create_wallet_account C K wallet_a_pk storage_mode
    println (text "Wallet A: " ++ K.display_account (K.account_id wallet_a))
    wallet_b ← create_wallet_account C K wallet_b_pk storage_mode
    println (text "Wallet B: " ++ K.display_account (K.account_id wallet_b))
    context (text "failed to sync state after account creation") (call K.sync_state)
    pure (issuer, wallet_a, wallet_b)

  -- Step 3.
  unfoldable pub mint_step : K.AccountId → K.AccountId → K.AccountId → Action K.State (Unit {0})
  mint_step issuer wallet_a wallet_b = do
    heading (text "=== Step 3: Mint Tokens ===")
    mint_tokens C K issuer wallet_a 1000
    println (text "Minted 1000 tokens to Wallet A")
    consume_notes C K wallet_a
    println (text "Wallet A consumed mint note")
    print_state issuer wallet_a wallet_b

  -- Step 4.
  unfoldable pub transfer_step : K.AccountId → K.AccountId → K.AccountId → Action K.State (Unit {0})
  transfer_step issuer wallet_a wallet_b = do
    heading (text "=== Step 4: Transfer Tokens ===")
    transfer_tokens C K wallet_a wallet_b issuer 300
    println (text "Transferred 300 tokens A → B")
    consume_notes C K wallet_b
    println (text "Wallet B consumed transfer note")
    print_state issuer wallet_a wallet_b

  -- Step 5.
  unfoldable pub burn_step : K.AccountId → K.AccountId → K.AccountId → Action K.State (Unit {0})
  burn_step issuer wallet_a wallet_b = do
    heading (text "=== Step 5: Burn Tokens ===")
    burn_tokens C K wallet_b issuer 100
    println (text "Burned 100 tokens from Wallet B")
    print_state issuer wallet_a wallet_b

  -- What the program does with its client.
  unfoldable pub demo :
      C.PublicKey
      → C.PublicKey
      → C.PublicKey
      → Client.AccountStorageMode
      → Action K.State (K.AccountId × K.AccountId × K.AccountId)
  demo issuer_pk wallet_a_pk wallet_b_pk storage_mode = do
    context (text "failed to sync state") (call K.sync_state)
    accounts ← create_accounts issuer_pk wallet_a_pk wallet_b_pk storage_mode
    let issuer = K.account_id accounts.0
    let wallet_a = K.account_id accounts.1
    let wallet_b = K.account_id accounts.2
    mint_step issuer wallet_a wallet_b
    transfer_step issuer wallet_a wallet_b
    burn_step issuer wallet_a wallet_b
    heading (text "Full demo complete!")
    pure (issuer, wallet_a, wallet_b)

module _ (C : Crypto) (F : FilesystemKeyStore C) (K : Client C) (M : Machine C F K) where
  -- `tempfile::tempdir()`, by its path.
  abbrev pub TempDir : Type 0
  TempDir = M.Host → Result Error Str × M.Host

  -- `Path::join`, of a directory that is written without a last slash.
  abbrev join : Str → Str → Str
  join dir name = dir ++ (b'/' ∷ name)

  abbrev store_key : Str → C.SecretKey → F.Store → Action M.Host F.Store
  store_key failed secret_key store =
      context failed (call (M.add_key store (C.ecdsa_key secret_key)))

  -- The public keys of the issuer and of the two wallets, and the client.
  abbrev pub Setup : Type 0
  Setup = C.PublicKey × C.PublicKey × C.PublicKey × K.State

  unfoldable pub set_up : TempDir → Config → Action M.Host Setup
  set_up tempdir config = do
    tmp_dir ← context (text "failed to create temp dir") (call tempdir)
    issuer_sk ← draw_key C F K M
    wallet_a_sk ← draw_key C F K M
    wallet_b_sk ← draw_key C F K M
    let (_, signer) = register_key C issuer_sk (MockSigner.new C)
    let (_, signer) = register_key C wallet_a_sk signer
    let (_, signer) = register_key C wallet_b_sk signer
    endpoint ← lift (map_err (λ e. e ∷ []) (M.endpoint config.miden_rpc_endpoint))
    fs_keystore ←
        context (text "failed to create keystore")
          (call (M.open_keystore (join tmp_dir (text "keystore"))))
    let keystore = Keystore.new C F fs_keystore (as_signer C signer)
    inner ← store_key (text "failed to store issuer key") issuer_sk keystore.inner
    inner ← store_key (text "failed to store wallet A key") wallet_a_sk inner
    inner ← store_key (text "failed to store wallet B key") wallet_b_sk inner
    client ← context (text "failed to build client") (
        call (
          M.build_client endpoint (join tmp_dir (text "store.sqlite3"))
            (record keystore { inner = inner })))
    pure (C.public_key issuer_sk, C.public_key wallet_a_sk, C.public_key wallet_b_sk, client)

  -- How the demo ends: without a client, or with one, and with what was printed.
  pub data DemoExit : Type 0 where
    unprepared : Error → World M.Host → DemoExit
    finished :
        Setup → Result Error (K.AccountId × K.AccountId × K.AccountId) → World K.State → DemoExit

  -- The result names the issuer and the wallets, which the source only prints.
  unfoldable pub full_demo : TempDir → Env → List Str → M.Host → DemoExit
  full_demo tempdir env args host =
      let private' = has_arg (text "--private") args in
      let storage_mode =
        if private' then Client.AccountStorageMode.private else Client.AccountStorageMode.public in
      let mode = if private' then text "Private" else text "Public" in
      let prepared = do
        println (text "Wallet storage mode: " ++ mode)
        set_up tempdir (from_env env)
      in let (p, w) = prepared (record { state = host; out = [] }) in
        elim p [
          | err e ↦ unprepared e w
          | ok (issuer_pk, wallet_a_pk, wallet_b_pk, client) ↦
              let (r, w) =
                demo C K issuer_pk wallet_a_pk wallet_b_pk storage_mode
                  (record { state = client; out = w.out }) in
              finished (issuer_pk, wallet_a_pk, wallet_b_pk, client) r w
        ]
