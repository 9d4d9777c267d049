-- ===== src/Multisig.antt =====
-- integration/src/multisig.rs: key managers for the PSM client, one over an external signer and one
-- over PSM's own key store.
pub mod Laws
use brale_miden_demo.Base.{ℕ, ◌++◌, Option, none, some, Result, ok, err, Panics, returned, panicked}
use brale_miden_demo.Text.{Str, text}
use brale_miden_demo.Crypto.{Crypto, Bytes}
use brale_miden_demo.Keystore.{ExternalSigner, keccak256_hash_word}

-- What miden_multisig_client offers. `generate` draws from a source of randomness.
pub record Psm (C : Crypto) : Type 1 where
  pub SignatureScheme : Type 0
  pub ecdsa : SignatureScheme
  pub SchemeSecretKey : Type 0
  pub ecdsa_secret : C.SecretKey → SchemeSecretKey
  pub EcdsaPsmKeyStore : Type 0
  pub Rng : Type 0
  pub generate : Rng → EcdsaPsmKeyStore × Rng
  pub from_secret : C.SecretKey → EcdsaPsmKeyStore
  pub store_public_key : EcdsaPsmKeyStore → C.PublicKey
  pub clone_ecdsa_secret_key : EcdsaPsmKeyStore → C.SecretKey
  pub store_scheme : EcdsaPsmKeyStore → SignatureScheme
  pub store_commitment : EcdsaPsmKeyStore → C.Word
  pub store_commitment_hex : EcdsaPsmKeyStore → Str
  pub store_sign_hex : EcdsaPsmKeyStore → C.Word → Str
  pub store_secret_key : EcdsaPsmKeyStore → SchemeSecretKey
  pub store_public_key_hex : EcdsaPsmKeyStore → Option Str

module _ (C : Crypto) where
  -- `format!("0x{}", hex::encode(bytes))`
  unfoldable pub prefixed_hex : Bytes → Str
  prefixed_hex bytes = text "0x" ++ C.hex_encode bytes

  module _ (P : Psm C) where
    -- The trait `KeyManager`, as the methods of one value.
    pub record KeyManager : Type 0 where
      pub scheme : P.SignatureScheme
      pub commitment : C.Word
      pub commitment_hex : Str
      pub sign_hex : C.Word → Panics Str
      pub secret_key : P.SchemeSecretKey
      pub public_key_hex : Option Str

    pub record BraleMpcKeyManager : Type 0 where
      pub secret_key : C.SecretKey
      pub public_key : C.PublicKey
      pub commitment : C.Word
      pub commitment_hex : Str
      pub signer : ExternalSigner C

    unfoldable pub new : C.SecretKey → ExternalSigner C → BraleMpcKeyManager
    new secret_key signer =
        let public_key = C.public_key secret_key in
        let commitment_word = C.to_commitment public_key in
        let commitment_bytes = C.word_bytes commitment_word in
        let commitment_hex = prefixed_hex commitment_bytes in
        record {
          secret_key = secret_key;
          public_key = public_key;
          commitment = commitment_word;
          commitment_hex = commitment_hex;
          signer = signer;
        }

    -- The task blocks on the signer, and panics if that fails.
    unfoldable pub sign_hex : BraleMpcKeyManager → C.Word → Panics Str
    unfolding keccak256_hash_word
    sign_hex manager message =
        let pub_key_commitment = C.commitment_of (C.to_commitment manager.public_key) in
        let digest = keccak256_hash_word C message in
        let signer = manager.signer in
        elim (signer.sign_prehash pub_key_commitment digest) [
          | ok bytes ↦ returned (prefixed_hex bytes)
          | err e ↦ panicked
        ]

    -- `impl KeyManager for BraleMpcKeyManager`
    unfoldable pub mpc_key_manager : BraleMpcKeyManager → KeyManager
    mpc_key_manager manager = record {
      scheme = P.ecdsa;
      commitment = manager.commitment;
      commitment_hex = manager.commitment_hex;
      sign_hex = sign_hex manager;
      secret_key = P.ecdsa_secret manager.secret_key;
      public_key_hex = some (prefixed_hex (C.to_bytes manager.public_key));
    }

    pub record SimulatedMpcKeyManager : Type 0 where
      pub inner : P.EcdsaPsmKeyStore

    unfoldable pub generate : P.Rng → SimulatedMpcKeyManager × P.Rng
    generate rng = let (store, rng') = P.generate rng in (record { inner = store }, rng')

    unfoldable pub simulated_new : C.SecretKey → SimulatedMpcKeyManager
    simulated_new secret_key = record { inner = P.from_secret secret_key }

    unfoldable pub public_key : SimulatedMpcKeyManager → C.PublicKey
    public_key manager = P.store_public_key manager.inner

    unfoldable pub clone_secret_key : SimulatedMpcKeyManager → C.SecretKey
    clone_secret_key manager = P.clone_ecdsa_secret_key manager.inner

    -- `impl KeyManager for SimulatedMpcKeyManager`
    unfoldable pub simulated_key_manager : SimulatedMpcKeyManager → KeyManager
    simulated_key_manager manager = record {
      scheme = P.store_scheme manager.inner;
      commitment = P.store_commitment manager.inner;
      commitment_hex = P.store_commitment_hex manager.inner;
      sign_hex = λ message. returned (P.store_sign_hex manager.inner message);
      secret_key = P.store_secret_key manager.inner;
      public_key_hex = P.store_public_key_hex manager.inner;
    }
