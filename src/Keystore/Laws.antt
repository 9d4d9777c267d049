-- ===== src/Keystore/Laws.antt =====
-- Which key signs what, and how failures are reported.
use brale_miden_demo.Base.{
  ◌≡◌, none, some, take, get_or, Result, ok, err, returned, arith, Option-cases, inl, inr,
}
use brale_miden_demo.Text.{text}
use brale_miden_demo.Crypto.{Crypto, Bytes}
use brale_miden_demo.Keystore.{
  FilesystemKeyStore, other_with_source, unknown_public_key, ExternalSigner, parse_ecdsa_signature,
  BraleKeystore, new, from, AuthError, get_signature, external_signature, inner_signature,
}

module _ (C : Crypto) (F : FilesystemKeyStore C) where
  open C use {Word, PublicKeyCommitment, EcdsaSignature, Signature, SigningInputs}

  -- The digest that an external signer is asked to sign.
  abbrev pub digest_of : SigningInputs → Bytes
  digest_of inputs = C.keccak256 (C.word_bytes (C.inputs_commitment inputs))

  -- A keystore, with a signer or without, answers every request without a panic.
  pub get_signature-returned :
      (keystore : BraleKeystore C F) (key : PublicKeyCommitment) (inputs : SigningInputs)
      → (r : Result (AuthError C F) Signature) × (get_signature C F keystore key inputs
          ≡ returned r)
  unfolding get_signature
  get_signature-returned keystore key inputs = elim (Option-cases keystore.signer) [
    | inl absent ↦
        (inner_signature C F keystore.inner key (C.inputs_commitment inputs), ground arith)
    | inr (signer, present) ↦
        (external_signature C F signer key (C.inputs_commitment inputs), ground arith)
  ]

  -- A keystore with a signer reports a signature only if that signer, asked for the key and the
  -- Keccak256 digest of the transaction's commitment, has given bytes that parse into it.
  pub get_signature-ok :
      (inner : F.Store) (signer : ExternalSigner C) (key : PublicKeyCommitment)
      (inputs : SigningInputs) (sig : Signature)
      → get_signature C F (new C F inner signer) key inputs ≡ returned (ok sig)
      → (bytes : Bytes) × (ecdsa : EcdsaSignature) × (signer.sign_prehash key (digest_of inputs)
          ≡ ok bytes)
        × (C.from_sec1_bytes (take 64 bytes) (get_or bytes 64 0) ≡ ok ecdsa)
        × (sig ≡ C.ecdsa_signature ecdsa)
  unfolding get_signature new
  get_signature-ok inner signer key inputs sig h = ground arith

  pub get_signature-answered :
      (inner : F.Store) (signer : ExternalSigner C) (key : PublicKeyCommitment)
      (inputs : SigningInputs) {bytes : Bytes} {sig : EcdsaSignature}
      → signer.sign_prehash key (digest_of inputs) ≡ ok bytes
      → parse_ecdsa_signature C bytes ≡ ok sig
      → get_signature C F (new C F inner signer) key inputs ≡ returned (ok (C.ecdsa_signature sig))
  unfolding get_signature new
  get_signature-answered inner signer key inputs answered parsed = ground arith

  -- The answer of a keystore with a signer rests on nothing but that signer's answer for the key and
  -- the digest: not on the inner keystore, nor on the signer's other answers.
  pub get_signature-local :
      (inner inner' : F.Store) (signer signer' : ExternalSigner C) (key : PublicKeyCommitment)
      (inputs : SigningInputs)
      → signer.sign_prehash key (digest_of inputs) ≡ signer'.sign_prehash key (digest_of inputs)
      → get_signature C F (new C F inner signer) key inputs
        ≡ get_signature C F (new C F inner' signer') key inputs
  unfolding get_signature new
  get_signature-local inner inner' signer signer' key inputs h = ground arith

  -- A keystore made from a plain one signs the commitment with the inner key; a key that is missing
  -- and a store that fails are told apart.
  pub get_signature-from :
      (inner : F.Store) (key : PublicKeyCommitment) (inputs : SigningInputs)
      → get_signature C F (from C F inner) key inputs
        ≡ returned (elim (F.get_key inner key) [
          | err e ↦ err (other_with_source (text "failed to load secret key") e)
          | ok none ↦ err (unknown_public_key key)
          | ok (some secret) ↦ ok (C.sign secret (C.inputs_commitment inputs))
        ])
  unfolding get_signature from
  get_signature-from inner key inputs = ground arith
