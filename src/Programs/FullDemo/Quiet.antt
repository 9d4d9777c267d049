-- ===== src/Programs/FullDemo/Quiet.antt =====
-- What of the demo leaves the ledger of its token alone.
use brale_miden_demo.Base.{ℕ, ◌≡◌, refl, ◌∙◌, ap, ◌⊎◌, false, inl, inr, Result-cases, arith}
use brale_miden_demo.Text.{Str, text}
use brale_miden_demo.Crypto.{Crypto}
use brale_miden_demo.Client
use brale_miden_demo.Client.{Client, AccountBuilder}
use brale_miden_demo.Operations.Monad.{World, Action, ◌>>◌, pure, println, context, call}
use brale_miden_demo.Operations.Accounts.{create_wallet_account, deploy_issuer_account}
use brale_miden_demo.Ledger.{Ledger}
use brale_miden_demo.Ledger.Laws.{Laws}
use brale_miden_demo.Ledger.Alone.{Alone}
use brale_miden_demo.Programs.FullDemo.{heading, create_accounts}
use brale_miden_demo.Programs.FullDemo.Moves.{Moves, then-Moves, quiet-Moves}

module _ (C : Crypto) (K : Client C) where
  -- The state after an account was made, or was not: what was drawn for it, and the account added.
  abbrev pub Made : K.State → K.State → Type 0
  Made s t =
      (t ≡ (K.fill_bytes s).1)
      ⊎ ((account : K.Account) × (t ≡ (K.add_account account false (K.fill_bytes s).1).1))

  pub deploy-Made :
      (pub_key : C.PublicKey) (symbol : Str) (decimals max_supply : ℕ) (w : World K.State)
      → Made w.state (deploy_issuer_account C K pub_key symbol decimals max_supply w).1.state
  unfolding deploy_issuer_account
  deploy-Made pub_key symbol decimals max_supply w = elim (Result-cases (K.token_symbol symbol)) [
    | inl (t, et) ↦ elim (Result-cases (K.faucet_component t decimals (K.felt max_supply))) [
      | inl (faucet, ef) ↦
          let b : AccountBuilder C.PublicKeyCommitment K.FaucetComponent = record {
            init_seed = (K.fill_bytes w.state).0;
            account_type = Client.fungible_faucet;
            storage_mode = Client.AccountStorageMode.public;
            component = Client.basic_fungible_faucet faucet;
            auth_component = C.commitment_of (C.to_commitment pub_key);
          } in
          elim (Result-cases (K.build_account b)) [
            | inl (account, ea) ↦ inr (account, ground arith)
            | inr (x, ea) ↦ inl (ground arith)
          ]
      | inr (x, ef) ↦ inl (ground arith)
    ]
    | inr (x, et) ↦ inl (ground arith)
  ]

  pub wallet-Made :
      (pub_key : C.PublicKey) (mode : Client.AccountStorageMode) (w : World K.State)
      → Made w.state (create_wallet_account C K pub_key mode w).1.state
  unfolding create_wallet_account
  wallet-Made pub_key mode w =
      let b : AccountBuilder C.PublicKeyCommitment K.FaucetComponent = record {
        init_seed = (K.fill_bytes w.state).0;
        account_type = Client.regular_account_immutable_code;
        storage_mode = mode;
        component = Client.basic_wallet;
        auth_component = C.commitment_of (C.to_commitment pub_key);
      } in
      elim (Result-cases (K.build_account b)) [
        | inl (account, ea) ↦ inr (account, ground arith)
        | inr (x, ea) ↦ inl (ground arith)
      ]

module _ (C : Crypto) (K : Client C) (issuer : K.AccountId) (H : Laws C K issuer)
    (A : Alone C K issuer H) where
  -- Two statements of a block, and one that leaves the ledger alone before others.
  next :
      {T U : Type 0} (m : Action K.State T) (k : Action K.State U) (l n l' : Ledger K.AccountId)
      → Moves C K issuer H A m l n
      → Moves C K issuer H A k n l'
      → Moves C K issuer H A (m >> k) l l'
  next m k l n l' hm hk = then-Moves C K issuer H A m (λ _. k) l n l' hm (λ _. hk)

  pub println-Moves :
      (line : Str) (l : Ledger K.AccountId) → Moves C K issuer H A (println line) l l
  println-Moves line l = quiet-Moves C K issuer H A (println line) l (λ w. refl)

  pub heading-Moves :
      (line : Str) (l : Ledger K.AccountId) → Moves C K issuer H A (heading line) l l
  heading-Moves line l = quiet-Moves C K issuer H A (heading line) l (λ w. refl)

  pub sync-Moves :
      (message : Str) (l : Ledger K.AccountId)
      → Moves C K issuer H A (context message (call K.sync_state)) l l
  sync-Moves message l =
      quiet-Moves C K issuer H A (context message (call K.sync_state)) l
        (λ w. A.synced_same w.state)

  Made-same : (s t : K.State) → Made C K s t → H.view t ≡ H.view s
  Made-same s t (inl e) = ap H.view e ∙ A.drawn_same s
  Made-same s t (inr (account, e)) =
      ap H.view e ∙ (A.added_same account false (K.fill_bytes s).1 ∙ A.drawn_same s)

  deploy-Moves :
      (pub_key : C.PublicKey) (symbol : Str) (decimals max_supply : ℕ) (l : Ledger K.AccountId)
      → Moves C K issuer H A (deploy_issuer_account C K pub_key symbol decimals max_supply) l l
  deploy-Moves pub_key symbol decimals max_supply l =
      quiet-Moves C K issuer H A (deploy_issuer_account C K pub_key symbol decimals max_supply) l
        (λ w. Made-same w.state _ (deploy-Made C K pub_key symbol decimals max_supply w))

  wallet-Moves :
      (pub_key : C.PublicKey) (mode : Client.AccountStorageMode) (l : Ledger K.AccountId)
      → Moves C K issuer H A (create_wallet_account C K pub_key mode) l l
  wallet-Moves pub_key mode l =
      quiet-Moves C K issuer H A (create_wallet_account C K pub_key mode) l
        (λ w. Made-same w.state _ (wallet-Made C K pub_key mode w))

  pub create_accounts-Moves :
      (issuer_pk wallet_a_pk wallet_b_pk : C.PublicKey) (mode : Client.AccountStorageMode)
      (l : Ledger K.AccountId)
      → Moves C K issuer H A (create_accounts C K issuer_pk wallet_a_pk wallet_b_pk mode) l l
  unfolding create_accounts
  create_accounts-Moves issuer_pk wallet_a_pk wallet_b_pk mode l =
      next _ _ l l l (heading-Moves _ l) (
        then-Moves C K issuer H A _ _ l l l (deploy-Moves issuer_pk (text "USDB") 6 1000000000000 l)
          (λ _. next _ _ l l l (println-Moves _ l) (
            next _ _ l l l (heading-Moves _ l) (
              then-Moves C K issuer H A _ _ l l l (wallet-Moves wallet_a_pk mode l) (λ _.
                next _ _ l l l (println-Moves _ l) (
                  then-Moves C K issuer H A _ _ l l l (wallet-Moves wallet_b_pk mode l) (λ _.
                    next _ _ l l l (println-Moves _ l) (
                      next _ _ l l l (sync-Moves _ l)
                        (quiet-Moves C K issuer H A (pure _) l (λ w. refl))))))))))
