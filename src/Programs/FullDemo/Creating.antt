-- ===== src/Programs/FullDemo/Creating.antt =====
-- The demo makes its three accounts, over a client that builds and adds accounts.
use brale_miden_demo.Base.{false, [], ◌∷◌, ◌++◌, ◌≡◌, refl, ok, arith}
use brale_miden_demo.Text.{text}
use brale_miden_demo.Crypto.{Crypto}
use brale_miden_demo.Client
use brale_miden_demo.Client.{
  Client, AccountBuilder, basic_fungible_faucet, fungible_faucet, regular_account_immutable_code,
  basic_wallet,
}
use brale_miden_demo.Operations.Monad.{World}
use brale_miden_demo.Operations.Accounts.{create_wallet_account, deploy_issuer_account}
use brale_miden_demo.Operations.Links.{account_link}
use brale_miden_demo.Operations.Notes.Polling.{IsOk}
use brale_miden_demo.Ledger.Online.{Tracked}
use brale_miden_demo.Ledger.Online.Completing.{IsOk-ok}

-- What miden_client and miden_standards do to build and to add accounts.
pub record Creates (C : Crypto) (K : Client C) : Type 0 where
  pub sync_ok : (s : K.State) → IsOk (K.sync_state s).0
  pub symbol_ok : IsOk (K.token_symbol (text "USDB"))
  pub faucet_ok :
      (t : K.TokenSymbol)
      → K.token_symbol (text "USDB") ≡ ok t
      → IsOk (K.faucet_component t 6 (K.felt 1000000000000))
  -- A wallet builds as a regular account, and a faucet component that was created as a faucet.
  pub wallet_ok :
      (b : AccountBuilder C.PublicKeyCommitment K.FaucetComponent)
      → b.account_type ≡ regular_account_immutable_code
      → b.component ≡ basic_wallet
      → IsOk (K.build_account b)
  pub issuer_ok :
      (b : AccountBuilder C.PublicKeyCommitment K.FaucetComponent) (t : K.TokenSymbol)
      (faucet : K.FaucetComponent)
      → K.faucet_component t 6 (K.felt 1000000000000) ≡ ok faucet
      → b.account_type ≡ fungible_faucet
      → b.component ≡ basic_fungible_faucet faucet
      → IsOk (K.build_account b)
  -- An account that was built from a seed just drawn is new to the client.
  pub add_ok :
      (b : AccountBuilder C.PublicKeyCommitment K.FaucetComponent) (account : K.Account)
      (s : K.State)
      → K.build_account b ≡ ok account
      → b.init_seed ≡ (K.fill_bytes s).0
      → IsOk (K.add_account account false (K.fill_bytes s).1).0
  pub add_tracked :
      (account : K.Account) (s : K.State)
      → (K.add_account account false s).0 ≡ ok tt
      → Tracked C K (K.account_id account) (K.add_account account false s).1
  -- Keys that differ make accounts that differ.
  pub distinct :
      (b b' : AccountBuilder C.PublicKeyCommitment K.FaucetComponent) (x y : K.Account)
      → K.build_account b ≡ ok x
      → K.build_account b' ≡ ok y
      → ¬ (b.auth_component ≡ b'.auth_component)
      → ¬ (K.account_id x ≡ K.account_id y)

module _ (C : Crypto) (K : Client C) where
  abbrev pub Builder : Type 0
  Builder = AccountBuilder C.PublicKeyCommitment K.FaucetComponent

  abbrev pub commitment : C.PublicKey → C.PublicKeyCommitment
  commitment pub_key = C.commitment_of (C.to_commitment pub_key)

  -- An account of a key that was built with the faucet of the demo's token.
  abbrev pub IsIssuer : C.PublicKey → K.AccountId → Type 0
  IsIssuer pub_key i =
      (t : K.TokenSymbol) × (faucet : K.FaucetComponent) × (b : Builder) × (account : K.Account)
      × (K.token_symbol (text "USDB") ≡ ok t)
      × (K.faucet_component t 6 (K.felt 1000000000000) ≡ ok faucet)
      × (b.component ≡ basic_fungible_faucet faucet)
      × (b.auth_component ≡ commitment pub_key)
      × (K.build_account b ≡ ok account)
      × (K.account_id account ≡ i)

  -- An account of a key was made, and is tracked.
  abbrev pub MadeOf : C.PublicKey → K.Account → K.State → Type 0
  MadeOf pub_key account s =
      (b : Builder) × (K.build_account b ≡ ok account)
      × (b.auth_component ≡ commitment pub_key)
      × Tracked C K (K.account_id account) s

module _ (C : Crypto) (K : Client C) (N : Creates C K) where
  pub deploy_issuer_account-ok :
      (pub_key : C.PublicKey) (w : World K.State)
      → (account : K.Account) × (w' : World K.State) × (deploy_issuer_account C K pub_key
            (text "USDB")
            6
            1000000000000
            w
          ≡ (ok account, w'))
        × IsIssuer C K pub_key (K.account_id account)
        × MadeOf C K pub_key account w'.state
  unfolding deploy_issuer_account
  deploy_issuer_account-ok pub_key w =
      let (t, et) = IsOk-ok (K.token_symbol (text "USDB")) N.symbol_ok in
      let (faucet, ef) =
        IsOk-ok (K.faucet_component t 6 (K.felt 1000000000000)) (N.faucet_ok t et) in
      let s = (K.fill_bytes w.state).1 in
      let b : Builder C K = record {
        init_seed = (K.fill_bytes w.state).0;
        account_type = fungible_faucet;
        storage_mode = Client.AccountStorageMode.public;
        component = basic_fungible_faucet faucet;
        auth_component = commitment C K pub_key;
      } in
      let (account, eb) = IsOk-ok (K.build_account b) (N.issuer_ok b t faucet ef refl refl) in
      let (u, ea) =
        IsOk-ok (K.add_account account false s).0 (N.add_ok b account w.state eb refl) in
      let added = K.add_account account false s in
      (
        account,
        record { state = added.1; out = w.out ++ (account_link C K (K.account_id account) ∷ []) },
        ground arith,
        (t, faucet, b, account, et, ef, refl, refl, eb, refl),
        (b, eb, refl, N.add_tracked account s ea),
      )

  pub create_wallet_account-ok :
      (pub_key : C.PublicKey) (mode : Client.AccountStorageMode) (w : World K.State)
      → (account : K.Account) × (w' : World K.State) × (create_wallet_account C K pub_key mode w
          ≡ (ok account, w'))
        × MadeOf C K pub_key account w'.state
        × (w'.out ≡ w.out ++ (account_link C K (K.account_id account) ∷ []))
  unfolding create_wallet_account
  create_wallet_account-ok pub_key mode w =
      let s = (K.fill_bytes w.state).1 in
      let b : Builder C K = record {
        init_seed = (K.fill_bytes w.state).0;
        account_type = regular_account_immutable_code;
        storage_mode = mode;
        component = basic_wallet;
        auth_component = commitment C K pub_key;
      } in
      let (account, eb) = IsOk-ok (K.build_account b) (N.wallet_ok b refl refl) in
      let (u, ea) =
        IsOk-ok (K.add_account account false s).0 (N.add_ok b account w.state eb refl) in
      (
        account,
        record {
          state = (K.add_account account false s).1;
          out = w.out ++ (account_link C K (K.account_id account) ∷ []);
        },
        ground arith,
        (b, eb, refl, N.add_tracked account s ea),
        refl,
      )
