-- ===== src/Programs/Setup.antt =====
-- What all these programs do between their arguments and their operation: a fresh key, a signer that
-- has it, a key store, and a client over it. Line numbers are those of integration/src/bin/mint.rs; the
-- other programs have the same text.
pub mod Signing
pub mod Stages
use brale_miden_demo.Base.{List, [], ◌∷◌, Result, ok, err, map_err}
use brale_miden_demo.Text.{Str, text}
use brale_miden_demo.Crypto.{Crypto}
use brale_miden_demo.Client.{Client, Error}
use brale_miden_demo.Config.{Config}
use brale_miden_demo.Keystore
use brale_miden_demo.Keystore.{FilesystemKeyStore, BraleKeystore}
use brale_miden_demo.MockSigner
use brale_miden_demo.MockSigner.{as_signer, register_key}
use brale_miden_demo.Operations.Monad.{World, Action, ◌>>=◌, pure, lift, context, call}

-- The machine that a program runs on: randomness, the file system and the network, as far as the
-- libraries reach them.
pub record Machine (C : Crypto) (F : FilesystemKeyStore C) (K : Client C) : Type 1 where
  pub Host : Type 0
  pub Endpoint : Type 0
  -- `AccountId::parse`, without the network that it returns too.
  pub parse_account : Str → Result Error K.AccountId
  -- `SecretKey::new`
  pub new_secret_key : Host → C.SecretKey × Host
  -- `Endpoint::try_from`, its error by what it displays.
  pub endpoint : Str → Result Str Endpoint
  -- `FilesystemKeyStore::new` and `add_key`; a store is known by what it holds.
  pub open_keystore : Str → Host → Result Error F.Store × Host
  pub add_key : F.Store → C.AuthSecretKey → Host → Result Error F.Store × Host
  -- `ClientBuilder`, given the endpoint, the path of the store and the authenticator.
  pub build_client : Endpoint → Str → BraleKeystore C F → Host → Result Error K.State × Host

module _ (C : Crypto) (F : FilesystemKeyStore C) (K : Client C) (M : Machine C F K) where
  -- What the rest of a program uses: the fresh public key, the key store behind the client, and the
  -- client.
  pub record Prepared : Type 0 where
    pub public_key : C.PublicKey
    pub keystore : BraleKeystore C F
    pub client : K.State

  -- `SecretKey::new()`
  abbrev pub draw_key : Action M.Host C.SecretKey
  draw_key = call (λ h. let (secret_key, h') = M.new_secret_key h in (ok secret_key, h'))

  unfoldable pub prepare : Config → Action M.Host Prepared
  prepare config = do
    secret_key ← draw_key
    let (_, signer) = register_key C secret_key (MockSigner.new C)
    endpoint ← lift (map_err (λ e. e ∷ []) (M.endpoint config.miden_rpc_endpoint))
    fs_keystore ←
        context (text "failed to create keystore") (call (M.open_keystore config.keystore_path))
    let keystore = Keystore.new C F fs_keystore (as_signer C signer)
    inner ←
        context (text "failed to store key")
          (call (M.add_key keystore.inner (C.ecdsa_key secret_key)))
    let keystore = record keystore { inner = inner }
    client ←
        context (text "failed to build client")
          (call (M.build_client endpoint config.sqlite_store_path keystore))
    pure (record { public_key = C.public_key secret_key; keystore = keystore; client = client })

  -- How a program ends: before it has a client, with an error, or with one.
  pub data Exit : Type 0 where
    unbuilt : Error → Exit
    ran : Prepared → Result Error (Unit {0}) → World K.State → Exit

  -- A program: its arguments, the preparation, and what it does with the client.
  unfoldable pub run :
      {A : Type 0}
      → Action M.Host A
      → Config
      → (A → Prepared → Action K.State (Unit {0}))
      → M.Host
      → Exit
  run arguments config body host =
      let (a, w) = arguments (record { state = host; out = [] }) in
      elim a [
        | err e ↦ unbuilt e
        | ok a ↦
            let (p, w) = prepare config w in
            elim p [
              | err e ↦ unbuilt e
              | ok p ↦ let (r, w) = body a p (record { state = p.client; out = w.out }) in ran p r w
            ]
      ]
