-- ===== src/Helpers/Accounts/Outcomes.antt =====
-- What the creation of accounts leaves behind.
use brale_miden_demo.Base.{
  ◌≡◌, ◌⊎◌, refl, ◌∷◌, false, inl, inr, Result, ok, err, Result-cases, Panics, returned, panicked,
  arith,
}
use brale_miden_demo.Text.{text}
use brale_miden_demo.Crypto.{Crypto, Bytes}
use brale_miden_demo.Client.{Client, Error}
use brale_miden_demo.Keystore.{FilesystemKeyStore}
use brale_miden_demo.Helpers.Toolchain
use brale_miden_demo.Helpers.Toolchain.{Toolchain, Builder, auth_falcon512_rpo}
use brale_miden_demo.Helpers.Components.{AccountCreationConfig}
use brale_miden_demo.Helpers.Accounts.{Session, create_basic_wallet_account}

module _ (C : Crypto) (F : FilesystemKeyStore C) (K : Client C) (T : Toolchain C F K)
    (config : AccountCreationConfig C F K T) where
  -- The wallet for a seed and a key.
  abbrev pub wallet_of : Bytes → T.FalconKey → Result Error K.Account
  wallet_of seed key = T.build (record {
    init_seed = seed;
    account_type = config.account_type;
    storage_mode = config.storage_mode;
    component = Toolchain.basic_wallet;
    auth_component = auth_falcon512_rpo (T.falcon_commitment key);
  })

  -- Some seed and key gave an account, and this client has been asked to add it.
  abbrev pub Added : Session C F K T → K.Account → T.FalconKey → Session C F K T → Type 0
  Added s account key s' =
      (seed : Bytes) × (c : K.State) × (wallet_of seed key ≡ ok account)
      × (T.falcon_key (K.fill_bytes s.client).1 ≡ (key, c))
      × (K.add_account account false c ≡ (ok tt, s'.client))

  -- The three ways to end: with the account and its key, with the account but not its key, or with
  -- neither.
  abbrev pub WalletOutcome :
      Session C F K T → Panics (Result Error K.Account) → Session C F K T → Type 0
  WalletOutcome s (returned (ok account)) s' =
      (key : T.FalconKey) × Added s account key s'
      × (T.add_falcon_key s.keystore key ≡ (ok tt, s'.keystore))
  WalletOutcome s (returned (err e)) s' =
      ((account : K.Account) × (key : T.FalconKey) × (x : Error) × Added s account key s'
        × (T.add_falcon_key s.keystore key ≡ (err x, s'.keystore))
        × (e ≡ text "Failed to add key to keystore" ∷ x))
      ⊎ (s'.keystore ≡ s.keystore)
  WalletOutcome s panicked s' = ⊥

  -- Creating a basic wallet never panics. If it returns an account, the client has added it and the key
  -- store has stored the key that the account's commitment was made of. If it fails, either the key
  -- store is untouched, or the client has added the account and the key store refused its key.
  pub create_basic_wallet_account-WalletOutcome :
      (s : Session C F K T) (r : Panics (Result Error K.Account)) (s' : Session C F K T)
      → create_basic_wallet_account C F K T config s ≡ (r, s')
      → WalletOutcome s r s'
  unfolding create_basic_wallet_account
  create_basic_wallet_account-WalletOutcome s (returned (ok account)) s' h =
      let (seed, c) = K.fill_bytes s.client in
      let (key, c') = T.falcon_key c in
      elim (Result-cases (wallet_of seed key)) [
        | inl (made, built) ↦ elim (Result-cases (K.add_account made false c').0) [
          | inl (u, added) ↦ elim (Result-cases (T.add_falcon_key s.keystore key).0) [
            | inl (v, stored) ↦ (key, (seed, c', ground arith, refl, ground arith), ground arith)
            | inr (x, refused) ↦ absurd (ground arith)
          ]
          | inr (x, refused) ↦ absurd (ground arith)
        ]
        | inr (x, refused) ↦ absurd (ground arith)
      ]
  create_basic_wallet_account-WalletOutcome s (returned (err e)) s' h =
      let (seed, c) = K.fill_bytes s.client in
      let (key, c') = T.falcon_key c in
      elim (Result-cases (wallet_of seed key)) [
        | inl (made, built) ↦ elim (Result-cases (K.add_account made false c').0) [
          | inl (u, added) ↦ elim (Result-cases (T.add_falcon_key s.keystore key).0) [
            | inl (v, stored) ↦ absurd (ground arith)
            | inr (x, refused) ↦
                inl
                  (made, key, x, (seed, c', built, refl, ground arith), ground arith, ground arith)
          ]
          | inr (x, refused) ↦ inr (ground arith)
        ]
        | inr (x, refused) ↦ inr (ground arith)
      ]
  create_basic_wallet_account-WalletOutcome s panicked s' h = ground arith
