-- ===== src/MockSigner/Agreement.antt =====
-- The simulated signer behind the keystore: signing through it is signing with the inner key.
use brale_miden_demo.Base.{
  ℕ, ap₂, ◌≡◌, ◌++◌, ◌∷◌, [], List, some, ok, arith, take-append_exact, get_or-append_exact, length,
  length-append,
}
use brale_miden_demo.Crypto
use brale_miden_demo.Crypto.{Crypto, Bytes}
use brale_miden_demo.Keystore
use brale_miden_demo.Keystore.{FilesystemKeyStore, get_signature, parse_ecdsa_signature}
use brale_miden_demo.Keystore.Laws.{digest_of, get_signature-from, get_signature-answered}
use brale_miden_demo.MockSigner.{as_signer, encode}
use brale_miden_demo.MockSigner.Laws.{encode_lem, sign_prehash-last, registered, last_registered}

module _ (C : Crypto) (L : Crypto.Laws C) where
  parse_ecdsa_signature-parts :
      (halves : Bytes) (v : ℕ)
      → length halves ≡ 64
      → parse_ecdsa_signature C (halves ++ (v ∷ [])) ≡ C.from_sec1_bytes halves v
  unfolding parse_ecdsa_signature
  parse_ecdsa_signature-parts halves v h =
      ap₂ C.from_sec1_bytes (take-append_exact 64 halves (v ∷ []) h)
        (get_or-append_exact 64 halves v [] 0 h)

  -- The 65 bytes that the simulated signer makes of a signature are parsed back into it.
  pub parse_ecdsa_signature-encode :
      (sig : C.EcdsaSignature) → parse_ecdsa_signature C (encode C sig) ≡ ok sig
  parse_ecdsa_signature-encode sig =
      let half : length (C.r sig ++ C.s sig) ≡ 64 =
        omega (arith, L.length-r sig, L.length-s sig, length-append (C.r sig) (C.s sig)) in
      rw (encode_lem C L, parse_ecdsa_signature-parts (C.r sig ++ C.s sig) (C.v sig) half)
        (L.from_sec1_bytes_own sig)

  -- A keystore whose simulated signer has had a key registered, and not replaced, under the
  -- commitment asked for signs just as the plain keystore does that holds that key.
  pub get_signature-simulated :
      (F : FilesystemKeyStore C) (inner inner' : F.Store) (secrets : List C.SecretKey)
      (key : C.PublicKeyCommitment) (secret : C.SecretKey) (inputs : C.SigningInputs)
      → last_registered C key secrets ≡ some secret
      → F.get_key inner' key ≡ ok (some (C.ecdsa_key secret))
      → get_signature C F (Keystore.new C F inner (as_signer C (registered C secrets))) key inputs
        ≡ get_signature C F (Keystore.from C F inner') key inputs
  get_signature-simulated F inner inner' secrets key secret inputs last found = rw (
    get_signature-from,
    found,
    get_signature-answered C F inner (as_signer C (registered C secrets)) key inputs
        (sign_prehash-last C L secrets key (digest_of C F inputs) secret last)
        (parse_ecdsa_signature-encode (C.sign_digest secret (digest_of C F inputs))),
    L.sign-ecdsa_key,
  )
