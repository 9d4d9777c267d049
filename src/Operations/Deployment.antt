-- ===== src/Operations/Deployment.antt =====
-- What the reads show of an account right after its creation, over a client whose accounts and store
-- behave as miden_client and miden_standards document.
use brale_miden_demo.Base.{
  refl, sym, subst, ℕ, ◌+◌, ◌-◌, ◌%◌, ◌^◌, ◌<◌, false, ◌≡◌, some, ok, Result-cases, inl, inr, arith,
}
use brale_miden_demo.Text.{Str, text}
use brale_miden_demo.Crypto.{Crypto}
use brale_miden_demo.Client
use brale_miden_demo.Client.{
  Client, AccountStorageMode, AccountBuilder, basic_fungible_faucet, basic_wallet, full,
  fungible_faucet, regular_account_immutable_code,
}
use brale_miden_demo.Operations.Monad.{World}
use brale_miden_demo.Operations.Accounts.{create_wallet_account, deploy_issuer_account}
use brale_miden_demo.Operations.Reads.Tracking.{full_account-full}
use brale_miden_demo.Operations.Reads.{
  full_account, read_balance, read_total_supply, issuer_account, read_token_metadata,
}

-- The order of the field of Miden's elements.
abbrev pub modulus : ℕ
modulus = 2 ^ 64 - 2 ^ 32 + 1

pub record Laws (C : Crypto) (K : Client C) : Type 0 where
  -- An element is made of any `u64` by reduction.
  pub as_int-felt : (n : ℕ) → K.as_int (K.felt n) ≡ n % modulus
  pub symbol_felt : K.TokenSymbol → K.Felt
  pub token_symbol_of-symbol_felt : (t : K.TokenSymbol) → K.token_symbol_of (symbol_felt t) ≡ ok t
  -- A faucet account holds `[max_supply, decimals, token_symbol, 0]` and has issued nothing.
  pub faucet_slots :
      (t : K.TokenSymbol) (decimals : ℕ) (max_supply : K.Felt) (faucet : K.FaucetComponent)
      (builder : AccountBuilder C.PublicKeyCommitment K.FaucetComponent) (account : K.Account)
      → K.faucet_component t decimals max_supply ≡ ok faucet
      → builder.component ≡ basic_fungible_faucet faucet
      → K.build_account builder ≡ ok account
      → (K.get_item account K.metadata_slot
          ≡ ok (max_supply, K.felt decimals, symbol_felt t, K.felt 0))
        × (K.get_item account K.faucet_sysdata_slot ≡ ok (K.felt 0, K.felt 0, K.felt 0, K.felt 0))
  -- A new wallet holds nothing.
  pub wallet_vault :
      (builder : AccountBuilder C.PublicKeyCommitment K.FaucetComponent) (account : K.Account)
      (issuer : K.AccountId)
      → builder.component ≡ basic_wallet
      → K.build_account builder ≡ ok account
      → K.get_balance account issuer ≡ ok 0
  -- An account that was added is tracked in full.
  pub add_account-tracked :
      (account : K.Account) (s : K.State)
      → (K.add_account account false s).0 ≡ ok tt
      → (r : K.AccountRecord) × (K.get_account
            (K.account_id account)
            (K.add_account account false s).1
          ≡ ok (some r))
        × (K.account_data r ≡ full account)

module _ (C : Crypto) (K : Client C) (L : Laws C K) where
  -- The state in which an account is tracked.
  abbrev pub Tracks : K.State → K.Account → Type 0
  Tracks s account =
      (r : K.AccountRecord) × (K.get_account (K.account_id account) s ≡ ok (some r))
      × (K.account_data r ≡ full account)

  full_account-tracked :
      (failed missing whose : Str) (account : K.Account) (w : World K.State)
      → Tracks w.state account
      → full_account C K failed missing whose (K.account_id account) w ≡ (ok account, w)
  full_account-tracked failed missing whose account w (r, found, data') =
      full_account-full C K failed missing whose (K.account_id account) r account w found data'

  -- An account that was built and added in the states of a call.
  added_tracked :
      (account : K.Account) (s t : K.State)
      → (K.add_account account false s).0 ≡ ok tt
      → t ≡ (K.add_account account false s).1
      → Tracks t account
  added_tracked account s t added at' =
      subst (λ u. Tracks u account) (sym at') (L.add_account-tracked account s added)

  -- What is known after a deployment.
  unfoldable pub Deployed : Str → ℕ → ℕ → K.Account → World K.State → Type 0
  Deployed symbol decimals max_supply account w' =
      (t : K.TokenSymbol) × (K.token_symbol symbol ≡ ok t)
      × (K.get_item account K.metadata_slot
          ≡ ok (K.felt max_supply, K.felt decimals, L.symbol_felt t, K.felt 0))
      × (K.get_item account K.faucet_sysdata_slot ≡ ok (K.felt 0, K.felt 0, K.felt 0, K.felt 0))
      × Tracks w'.state account

  pub deploy_issuer_account-Deployed :
      (pub_key : C.PublicKey) (symbol : Str) (decimals max_supply : ℕ) (account : K.Account)
      (w w' : World K.State)
      → deploy_issuer_account C K pub_key symbol decimals max_supply w ≡ (ok account, w')
      → Deployed symbol decimals max_supply account w'
  unfolding deploy_issuer_account Deployed
  deploy_issuer_account-Deployed pub_key symbol decimals max_supply account w w' h =
      elim (Result-cases (K.token_symbol symbol)) [
        | inl (t, et) ↦ elim (Result-cases (K.faucet_component t decimals (K.felt max_supply))) [
          | inl (faucet, ef) ↦
              let s = (K.fill_bytes w.state).1 in
              let b : AccountBuilder C.PublicKeyCommitment K.FaucetComponent = record {
                init_seed = (K.fill_bytes w.state).0;
                account_type = fungible_faucet;
                storage_mode = Client.AccountStorageMode.public;
                component = basic_fungible_faucet faucet;
                auth_component = C.commitment_of (C.to_commitment pub_key);
              } in
              let built : K.build_account b ≡ ok account = ground arith in
              let added : (K.add_account account false s).0 ≡ ok tt = ground arith in
              let at' : w'.state ≡ (K.add_account account false s).1 = ground arith in
              let slots =
                L.faucet_slots t decimals (K.felt max_supply) faucet b account ef refl built in
              (t, et, slots.0, slots.1, added_tracked account s w'.state added at')
          | inr (x, ef) ↦ absurd (ground arith)
        ]
        | inr (x, et) ↦ absurd (ground arith)
      ]

  issuer_tracked :
      (account : K.Account) (w : World K.State)
      → Tracks w.state account
      → issuer_account C K (K.account_id account) w ≡ (ok account, w)
  issuer_tracked account w tracks =
      full_account-tracked (text "failed to get issuer account") (text "issuer account not found")
        (text "issuer ") account w tracks

  pub metadata_read :
      (account : K.Account) (t : K.TokenSymbol) (decimals max_supply : ℕ) (w : World K.State)
      → decimals < 2 ^ 8
      → Tracks w.state account
      → K.get_item account K.metadata_slot
        ≡ ok (K.felt max_supply, K.felt decimals, L.symbol_felt t, K.felt 0)
      → read_token_metadata C K (K.account_id account) w
        ≡ (ok (record { symbol = t; decimals = decimals; max_supply = max_supply % modulus }), w)
  unfolding read_token_metadata
  metadata_read account t decimals max_supply w lt tracks item = ground (
    arith,
    issuer_tracked account w tracks,
    L.as_int-felt decimals,
    L.as_int-felt max_supply,
    L.token_symbol_of-symbol_felt t,
  )

  pub supply_read :
      (account : K.Account) (w : World K.State)
      → Tracks w.state account
      → K.get_item account K.faucet_sysdata_slot ≡ ok (K.felt 0, K.felt 0, K.felt 0, K.felt 0)
      → read_total_supply C K (K.account_id account) w ≡ (ok 0, w)
  unfolding read_total_supply
  supply_read account w tracks item =
      ground (arith, issuer_tracked account w tracks, L.as_int-felt 0)

  -- Right after an issuer was deployed with some decimals that fit a byte, its metadata reads back the
  -- symbol, the decimals, and the maximal supply reduced modulo the order of the field; its total supply
  -- reads as zero. No read changes anything.
  pub deploy_issuer_account-reads :
      (pub_key : C.PublicKey) (symbol : Str) (decimals max_supply : ℕ) (account : K.Account)
      (w w' : World K.State)
      → decimals < 2 ^ 8
      → deploy_issuer_account C K pub_key symbol decimals max_supply w ≡ (ok account, w')
      → (t : K.TokenSymbol) × (K.token_symbol symbol ≡ ok t)
        × (read_token_metadata C K (K.account_id account) w' ≡ (
          ok (record { symbol = t; decimals = decimals; max_supply = max_supply % modulus }),
          w',
        ))
        × (read_total_supply C K (K.account_id account) w' ≡ (ok 0, w'))
  unfolding Deployed
  deploy_issuer_account-reads pub_key symbol decimals max_supply account w w' lt h =
      let (t, et, metadata, issuance, tracks) =
        deploy_issuer_account-Deployed pub_key symbol decimals max_supply account w w' h in
      (
        t,
        et,
        metadata_read account t decimals max_supply w' lt tracks metadata,
        supply_read account w' tracks issuance,
      )

  -- Right after a wallet was created its balance of any token reads as zero.
  pub create_wallet_account-read_balance :
      (pub_key : C.PublicKey) (mode : AccountStorageMode) (account : K.Account)
      (issuer : K.AccountId) (w w' : World K.State)
      → create_wallet_account C K pub_key mode w ≡ (ok account, w')
      → read_balance C K (K.account_id account) issuer w' ≡ (ok 0, w')
  unfolding create_wallet_account read_balance
  create_wallet_account-read_balance pub_key mode account issuer w w' h =
      let s = (K.fill_bytes w.state).1 in
      let b : AccountBuilder C.PublicKeyCommitment K.FaucetComponent = record {
        init_seed = (K.fill_bytes w.state).0;
        account_type = regular_account_immutable_code;
        storage_mode = mode;
        component = basic_wallet;
        auth_component = C.commitment_of (C.to_commitment pub_key);
      } in
      let built : K.build_account b ≡ ok account = ground arith in
      let added : (K.add_account account false s).0 ≡ ok tt = ground arith in
      let at' : w'.state ≡ (K.add_account account false s).1 = ground arith in
      ground (
        arith,
        L.wallet_vault b account issuer refl built,
        full_account-tracked (text "failed to get account") (text "account not found")
            (text "account ") account w' (added_tracked account s w'.state added at'),
      )
