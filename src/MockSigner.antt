-- ===== src/MockSigner.antt =====
-- integration/src/mock_signer.rs: a signer that holds its keys itself. The map behind the mutex is
-- an association list that lists no commitment twice; a method returns the new map.
pub mod Laws
pub mod Agreement
use brale_miden_demo.Base.{
  ℕ, zero, suc, ◌+◌, List, [], ◌∷◌, ◌++◌, Option, none, some, Eq, if◌then◌else◌, length, take, drop,
  replicate, Result, ok, err, bind, ok_or,
}
use brale_miden_demo.Text.{Str, text}
use brale_miden_demo.Crypto.{Crypto, Bytes}
use brale_miden_demo.Keystore.{ExternalSigner, ExternalSignerError, signing_failed}

module _ {K V : Type 0} ⦃e : Eq K⦄ where
  -- `BTreeMap::get`
  unfoldable pub lookup : K → List (K × V) → Option V
  lookup k [] = none
  lookup k ((j, v) ∷ m) = if e.beq k j then some v else lookup k m

  -- `BTreeMap::insert`: a key that is there gets the new value.
  unfoldable pub insert : K → V → List (K × V) → List (K × V)
  insert k v [] = (k, v) ∷ []
  insert k v ((j, w) ∷ m) = if e.beq k j then (j, v) ∷ m else (j, w) ∷ insert k v m

-- `out[from..from + src.len()].copy_from_slice(src)`
unfoldable pub copy_from_slice : ℕ → Bytes → Bytes → Bytes
copy_from_slice from src out = take from out ++ (src ++ drop (from + length src) out)

-- `out[i] = b`
unfoldable pub set : Bytes → ℕ → ℕ → Bytes
set [] i b = []
set (c ∷ out) zero b = b ∷ out
set (c ∷ out) (suc i) b = c ∷ set out i b

module _ (C : Crypto) where
  open C use {PublicKeyCommitment, SecretKey, EcdsaSignature}

  pub record SimulatedMpcSigner : Type 0 where
    pub keys : List (PublicKeyCommitment × SecretKey)

  unfoldable pub new : SimulatedMpcSigner
  new = record { keys = [] }

  -- The commitment under which a key is registered.
  abbrev pub key_commitment : SecretKey → PublicKeyCommitment
  key_commitment secret_key = C.commitment_of (C.to_commitment (C.public_key secret_key))

  unfoldable pub register_key :
      SecretKey → SimulatedMpcSigner → PublicKeyCommitment × SimulatedMpcSigner
  register_key secret_key signer =
      let commitment = key_commitment secret_key in
      (commitment, record { keys = insert ⦃e = C.commitment_eq⦄ commitment secret_key signer.keys })

  -- r[32] || s[32] || v[1]
  unfoldable pub encode : EcdsaSignature → Bytes
  unfolding copy_from_slice set
  encode signature =
      let out = replicate 65 0 in
      let out = copy_from_slice 0 (C.r signature) out in
      let out = copy_from_slice 32 (C.s signature) out in set out 64 (C.v signature)

  unfoldable pub sign_prehash :
      SimulatedMpcSigner → PublicKeyCommitment → Bytes → Result ExternalSignerError Bytes
  sign_prehash signer key digest =
      bind
        (ok_or (lookup ⦃e = C.commitment_eq⦄ key signer.keys)
          (signing_failed (text "unknown key commitment: " ++ C.debug key)))
        (λ secret_key. ok (encode (C.sign_digest secret_key digest)))

  -- `impl ExternalSigner for SimulatedMpcSigner`
  abbrev pub as_signer : SimulatedMpcSigner → ExternalSigner C
  as_signer signer = record { sign_prehash = sign_prehash signer }
