-- ===== src/Multisig/Laws.antt =====
-- The key manager over an external signer signs what the keystore signs.
use brale_miden_demo.Base.{
  Result-cases, inl, inr, List, refl, ◌*◌, ◌+◌, ◌≡◌, ◌↔◌, ◌++◌, some, ok, err, returned, panicked,
  arith, take, get_or, length,
}
use brale_miden_demo.Text.{Str, text}
use brale_miden_demo.Crypto
use brale_miden_demo.Crypto.{Crypto, Bytes}
use brale_miden_demo.Keystore
use brale_miden_demo.Keystore.{
  FilesystemKeyStore, ExternalSigner, ExternalSignerError, keccak256_hash_word, get_signature,
}
use brale_miden_demo.Keystore.Laws.{get_signature-ok}
use brale_miden_demo.MockSigner.{as_signer, encode, key_commitment}
use brale_miden_demo.MockSigner.Laws.{length-encode, sign_prehash-last, registered, last_registered}
use brale_miden_demo.Multisig.{Psm, prefixed_hex, new, mpc_key_manager, sign_hex}

module _ (C : Crypto) (P : Psm C) where
  -- Signing in hexadecimal panics exactly if the signer refuses the digest of the message.
  pub sign_hex_panics :
      (secret : C.SecretKey) (signer : ExternalSigner C) (message : C.Word)
      → ((mpc_key_manager C P (new C P secret signer)).sign_hex message ≡ panicked) ↔ (
          (e : ExternalSignerError) × (signer.sign_prehash
              (key_commitment C secret)
              (C.keccak256 (C.word_bytes message))
            ≡ err e))
  unfolding mpc_key_manager sign_hex new
  sign_hex_panics secret signer message =
      elim (Result-cases
        (signer.sign_prehash (key_commitment C secret) (C.keccak256 (C.word_bytes message)))) [
          | inl (bytes, answered) ↦ ground arith
          | inr (e, refused) ↦ (λ _. (e, refused), λ _. ground arith)
        ]

  -- Where a keystore over the same signer reports a signature for the key of the manager, the manager
  -- returns in hexadecimal, for the same commitment, bytes that parse into that signature.
  pub sign_hex-get_signature :
      (F : FilesystemKeyStore C) (inner : F.Store) (secret : C.SecretKey)
      (signer : ExternalSigner C) (inputs : C.SigningInputs) (sig : C.Signature)
      → get_signature C F (Keystore.new C F inner signer) (key_commitment C secret) inputs
        ≡ returned (ok sig)
      → (bytes : Bytes) × (ecdsa : C.EcdsaSignature) × ((mpc_key_manager C P
              (new C P secret signer)).sign_hex
            (C.inputs_commitment inputs)
          ≡ returned (text "0x" ++ C.hex_encode bytes))
        × (C.from_sec1_bytes (take 64 bytes) (get_or bytes 64 0) ≡ ok ecdsa)
        × (sig ≡ C.ecdsa_signature ecdsa)
  unfolding mpc_key_manager sign_hex new prefixed_hex
  sign_hex-get_signature F inner secret signer inputs sig h =
      let (bytes, ecdsa, answered, parsed, made) =
        get_signature-ok C F inner signer (key_commitment C secret) inputs sig h in
      (bytes, ecdsa, ground arith, parsed, made)

  length-prefixed_hex :
      Crypto.Laws C → (bytes : Bytes) → length (prefixed_hex C bytes) ≡ 2 * length bytes + 2
  unfolding prefixed_hex
  length-prefixed_hex L bytes = omega (arith, L.length-hex_encode bytes)

  -- A manager shows its key's commitment in 66 characters, and signing through a simulated signer that
  -- has had its key registered, and not replaced, does not panic and gives 132 characters.
  pub mpc_key_manager-sizes :
      Crypto.Laws C
      → (secrets : List C.SecretKey) (secret : C.SecretKey) (message : C.Word)
      → last_registered C (key_commitment C secret) secrets ≡ some secret
      → let manager = mpc_key_manager C P (new C P secret (as_signer C (registered C secrets))) in
        (manager.commitment_hex ≡ prefixed_hex C (C.word_bytes manager.commitment))
        × (length manager.commitment_hex ≡ 66)
        × (hex : Str) × (manager.sign_hex message ≡ returned hex)
        × (length hex ≡ 132)
  unfolding mpc_key_manager sign_hex new
  mpc_key_manager-sizes L secrets secret message last =
      let digest = C.keccak256 (C.word_bytes message) in
      let bytes = encode C (C.sign_digest secret digest) in
      (
        refl,
        omega (
          arith,
          length-prefixed_hex L (C.word_bytes (C.to_commitment (C.public_key secret))),
          L.length-word_bytes (C.to_commitment (C.public_key secret)),
        ),
        prefixed_hex C bytes,
        ground (arith, sign_prehash-last C L secrets (key_commitment C secret) digest secret last),
        omega (arith, length-prefixed_hex L bytes, length-encode C L (C.sign_digest secret digest)),
      )
