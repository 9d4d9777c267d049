-- ===== src/Keystore.antt =====
-- integration/src/keystore.rs: the trait of external signers, and the keystore that signs through
-- one if it has one and else with the keys of the keystore that it wraps.
pub mod Laws
use brale_miden_demo.Base.{
  ℕ, Bool, true, false, [], ◌∷◌, ◌++◌, Option, none, some, if◌then◌else◌, take, get_or, Result, ok,
  err, Panics, returned, panicked, map_err, ok_or, bind,
}
use brale_miden_demo.Text.{Str, text}
use brale_miden_demo.Crypto.{Crypto, Bytes}

pub data ExternalSignerError : Type 0 where
  signing_failed unavailable invalid_response : Str → ExternalSignerError

-- The `#[error]` texts.
abbrev pub display : ExternalSignerError → Str
display (signing_failed message) = text "signing failed: " ++ message
display (unavailable message) = text "signer unavailable: " ++ message
display (invalid_response message) = text "invalid response: " ++ message

-- What miden_client's `FilesystemKeyStore` offers.
pub record FilesystemKeyStore (C : Crypto) : Type 1 where
  pub Store : Type 0
  pub KeyStoreError : Type 0
  pub get_key : Store → C.PublicKeyCommitment → Result KeyStoreError (Option C.AuthSecretKey)

-- The values of miden_tx's `AuthenticationError` that the code makes.
pub data AuthenticationError (KeyStoreError Commitment : Type 0) : Type 0 where
  other : Str → AuthenticationError KeyStoreError Commitment
  other_with_source : Str → KeyStoreError → AuthenticationError KeyStoreError Commitment
  unknown_public_key : Commitment → AuthenticationError KeyStoreError Commitment

module _ (C : Crypto) where
  open C use {Word, PublicKeyCommitment, EcdsaSignature, Signature, SigningInputs}

  -- A backend is known by its answers: a `[u8; 65]` or an error, for a key and a digest.
  pub record ExternalSigner : Type 0 where
    pub sign_prehash : PublicKeyCommitment → Bytes → Result ExternalSignerError Bytes

  unfoldable pub keccak256_hash_word : Word → Bytes
  keccak256_hash_word word = C.keccak256 (C.word_bytes word)

  -- `bytes` has 65 bytes by its type.
  unfoldable pub parse_ecdsa_signature : Bytes → Result Str EcdsaSignature
  parse_ecdsa_signature bytes =
      let sec1_bytes = take 64 bytes in let v = get_or bytes 64 0 in C.from_sec1_bytes sec1_bytes v

  module _ (F : FilesystemKeyStore C) where
    pub record BraleKeystore : Type 0 where
      pub inner : F.Store
      pub signer : Option ExternalSigner

    unfoldable pub new : F.Store → ExternalSigner → BraleKeystore
    new inner signer = record { inner = inner; signer = some signer }

    unfoldable pub passthrough : F.Store → BraleKeystore
    passthrough inner = record { inner = inner; signer = none }

    -- `From<FilesystemKeyStore>`
    unfoldable pub from : F.Store → BraleKeystore
    unfolding passthrough
    from inner = passthrough inner

    abbrev pub AuthError : Type 0
    AuthError = AuthenticationError F.KeyStoreError PublicKeyCommitment

    -- The signature by a key of the inner keystore, computed ahead where there is no signer.
    unfoldable pub inner_signature :
        F.Store → PublicKeyCommitment → Word → Result AuthError Signature
    inner_signature inner key commitment =
        bind
          (bind
            (map_err (other_with_source (text "failed to load secret key")) (F.get_key inner key))
            (λ found. ok_or found (unknown_public_key key)))
          (λ secret. ok (C.sign secret commitment))

    -- The external path: digest, signature, parse.
    unfoldable pub external_signature :
        ExternalSigner → PublicKeyCommitment → Word → Result AuthError Signature
    unfolding keccak256_hash_word parse_ecdsa_signature
    external_signature signer key commitment =
        bind
          (map_err (λ e. other (display e))
            (signer.sign_prehash key (keccak256_hash_word commitment)))
          (λ sig_bytes.
            bind
              (map_err (λ e. other (text "invalid ECDSA signature: " ++ e))
                (parse_ecdsa_signature sig_bytes))
              (λ ecdsa_sig. ok (C.ecdsa_signature ecdsa_sig)))

    abbrev is_none : Option ExternalSigner → Bool
    is_none none = true
    is_none (some _) = false

    -- `signer.expect(…)` panics without a signer.
    unfoldable pub get_signature :
        BraleKeystore → PublicKeyCommitment → SigningInputs → Panics (Result AuthError Signature)
    unfolding inner_signature external_signature
    get_signature keystore key signing_inputs =
        let commitment = C.inputs_commitment signing_inputs in
        let fallback : Option (Result AuthError Signature) =
          if is_none keystore.signer
          then some (inner_signature keystore.inner key commitment)
          else none in
        elim fallback [
          | some result ↦ returned result
          | none ↦ elim keystore.signer [
            | none ↦ panicked
            | some signer ↦ returned (external_signature signer key commitment)
          ]
        ]

    unfoldable pub get_public_key : BraleKeystore → PublicKeyCommitment → Option C.PublicKey
    get_public_key keystore key = none
