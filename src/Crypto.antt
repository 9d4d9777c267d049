-- ===== src/Crypto.antt =====
-- The cryptography that the sources call and do not implement: miden_protocol's ECDSA K256 keys and
-- signatures, miden_client's words and key commitments, sha3's Keccak256 and the crate hex. Every
-- definition that uses it takes it as a parameter, with what the crates document as `Laws`.
use brale_miden_demo.Base.{ℕ, ◌*◌, ◌≡◌, List, ◌++◌, length, Eq, Result, ok}
use brale_miden_demo.Text.{Str}

-- `[u8; n]` and `Vec<u8>`, as the list of the byte values.
abbrev pub Bytes : Type 0
Bytes = List ℕ

pub record Crypto : Type 1 where
  pub Word : Type 0
  pub PublicKeyCommitment : Type 0
  pub SecretKey : Type 0
  pub PublicKey : Type 0
  -- `ecdsa_k256_keccak::Signature`, and `miden_client::auth::Signature` around it.
  pub EcdsaSignature : Type 0
  pub Signature : Type 0
  pub AuthSecretKey : Type 0
  pub SigningInputs : Type 0
  pub public_key : SecretKey → PublicKey
  pub to_bytes : PublicKey → Bytes
  pub to_commitment : PublicKey → Word
  -- `PublicKeyCommitment::from`
  pub commitment_of : Word → PublicKeyCommitment
  pub commitment_eq : Eq PublicKeyCommitment
  -- `{:?}` of a commitment.
  pub debug : PublicKeyCommitment → Str
  -- `Into<[u8; 32]>` of a word.
  pub word_bytes : Word → Bytes
  pub keccak256 : Bytes → Bytes
  -- `SecretKey::sign_prehash`, and the parts of a signature.
  pub sign_digest : SecretKey → Bytes → EcdsaSignature
  pub r : EcdsaSignature → Bytes
  pub s : EcdsaSignature → Bytes
  pub v : EcdsaSignature → ℕ
  -- `Signature::from_sec1_bytes_and_recovery_id`, its error by what it displays.
  pub from_sec1_bytes : Bytes → ℕ → Result Str EcdsaSignature
  -- `Signature::EcdsaK256Keccak` and `AuthSecretKey::EcdsaK256Keccak`.
  pub ecdsa_signature : EcdsaSignature → Signature
  pub ecdsa_key : SecretKey → AuthSecretKey
  -- `AuthSecretKey::sign`
  pub sign : AuthSecretKey → Word → Signature
  -- `SigningInputs::to_commitment`
  pub inputs_commitment : SigningInputs → Word
  -- `hex::encode`
  pub hex_encode : Bytes → Str

-- What the crates document of their types.
pub record Laws (C : Crypto) : Type 0 where
  -- A word is four field elements of eight bytes.
  pub length-word_bytes : (word : C.Word) → length (C.word_bytes word) ≡ 32
  -- `r()` and `s()` return `[u8; 32]`.
  pub length-r : (sig : C.EcdsaSignature) → length (C.r sig) ≡ 32
  pub length-s : (sig : C.EcdsaSignature) → length (C.s sig) ≡ 32
  -- A signature is rebuilt from its own parts.
  pub from_sec1_bytes_own :
      (sig : C.EcdsaSignature) → C.from_sec1_bytes (C.r sig ++ C.s sig) (C.v sig) ≡ ok sig
  -- An ECDSA key signs the Keccak256 digest of the word's bytes.
  pub sign-ecdsa_key :
      (key : C.SecretKey) (word : C.Word)
      → C.sign (C.ecdsa_key key) word
        ≡ C.ecdsa_signature (C.sign_digest key (C.keccak256 (C.word_bytes word)))
  -- Two hexadecimal digits for each byte.
  pub length-hex_encode : (bytes : Bytes) → length (C.hex_encode bytes) ≡ 2 * length bytes
