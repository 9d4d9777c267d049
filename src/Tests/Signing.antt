-- ===== src/Tests/Signing.antt =====
-- The keystore, the simulated signer and the key managers at concrete inputs.
use brale_miden_demo.Base.{
  ℕ, ◌≡◌, ◌↔◌, refl, [], ◌∷◌, ◌++◌, none, some, Result, ok, err, returned, panicked, length, take,
  get_or, replicate,
}
use brale_miden_demo.Text.{Str, text}
use brale_miden_demo.Crypto.{Bytes}
use brale_miden_demo.Keystore
use brale_miden_demo.Keystore.{
  ExternalSigner, ExternalSignerError, signing_failed, unavailable, unknown_public_key, AuthError,
  get_signature, parse_ecdsa_signature,
}
use brale_miden_demo.Keystore.Laws.{
  digest_of, get_signature-returned, get_signature-ok, get_signature-local, get_signature-from,
}
use brale_miden_demo.MockSigner
use brale_miden_demo.MockSigner.{
  as_signer, encode, sign_prehash, key_commitment, lookup, insert, copy_from_slice, set,
  register_key,
}
use brale_miden_demo.MockSigner.Laws.{registered, sign_prehash-registered}
use brale_miden_demo.MockSigner.Agreement.{parse_ecdsa_signature-encode, get_signature-simulated}
use brale_miden_demo.Multisig
use brale_miden_demo.Multisig.{mpc_key_manager, prefixed_hex}
use brale_miden_demo.Multisig.Laws.{sign_hex_panics, sign_hex-get_signature, mpc_key_manager-sizes}
use brale_miden_demo.Tests.Doubles.{crypto, crypto-Laws, one_key, psm}

-- A backend that answers each digest with the digest's first byte, one that always answers with 9, and
-- one that is down.
abbrev backend : ExternalSigner crypto
backend = record { sign_prehash = λ key digest. ok (get_or digest 0 0 ∷ replicate 64 0) }

abbrev backend' : ExternalSigner crypto
backend' = record { sign_prehash = λ key digest. ok (9 ∷ replicate 64 0) }

abbrev down : ExternalSigner crypto
down = record { sign_prehash = λ key digest. err (unavailable (text "timeout")) }

get_signature-returned_run :
    (r : Result (AuthError crypto one_key) ℕ) × (get_signature crypto one_key
        (Keystore.new crypto one_key none down)
        105
        9
      ≡ returned r)
get_signature-returned_run =
    get_signature-returned crypto one_key (Keystore.new crypto one_key none down) 105 9

get_signature-ok_example :
    (bytes : Bytes) × (ecdsa : ℕ) × (backend.sign_prehash 105 (digest_of crypto one_key 9)
      ≡ ok bytes)
    × (crypto.from_sec1_bytes (take 64 bytes) (get_or bytes 64 0) ≡ ok ecdsa)
    × (◌≡◌ {A = ℕ} 9 ecdsa)
unfolding get_signature Keystore.new Keystore.external_signature parse_ecdsa_signature
    Keystore.keccak256_hash_word
get_signature-ok_example = get_signature-ok crypto one_key none backend 105 9 9 refl

get_signature-local_run :
    get_signature crypto one_key (Keystore.new crypto one_key none backend) 105 9
    ≡ get_signature crypto one_key (Keystore.new crypto one_key (some 5) backend') 105 9
get_signature-local_run =
    get_signature-local crypto one_key none (some 5) backend backend' 105 9 refl

get_signature-from_example :
    get_signature crypto one_key (Keystore.from crypto one_key (some 5)) 106 9
    ≡ returned (err (unknown_public_key 106))
get_signature-from_example = get_signature-from crypto one_key (some 5) 106 9

sign_prehash-registered_example :
    sign_prehash crypto (registered crypto (6 ∷ 5 ∷ [])) 107 (1 ∷ [])
    ≡ err (signing_failed (text "unknown key commitment: " ++ (107 ∷ [])))
sign_prehash-registered_example =
    sign_prehash-registered crypto crypto-Laws (6 ∷ 5 ∷ []) 107 (1 ∷ [])

parse_ecdsa_signature-encode_example : parse_ecdsa_signature crypto (encode crypto 77) ≡ ok 77
parse_ecdsa_signature-encode_example = parse_ecdsa_signature-encode crypto crypto-Laws 77

get_signature-simulated_example :
    get_signature crypto one_key
      (Keystore.new crypto one_key none (as_signer crypto (registered crypto (6 ∷ 5 ∷ []))))
      105
      9
    ≡ get_signature crypto one_key (Keystore.from crypto one_key (some 5)) 105 9
get_signature-simulated_example =
    get_signature-simulated crypto crypto-Laws one_key none (some 5) (6 ∷ 5 ∷ []) 105 5 9 refl refl

sign_hex_panics_run :
    ((mpc_key_manager crypto psm (Multisig.new crypto psm 5 down)).sign_hex 9 ≡ panicked)
    ↔ ((e : ExternalSignerError) × (down.sign_prehash 105 (9 ∷ replicate 31 0) ≡ err e))
sign_hex_panics_run = sign_hex_panics crypto psm 5 down 9

sign_hex-get_signature_example :
    (bytes : Bytes) × (ecdsa : ℕ) × ((mpc_key_manager crypto psm
          (Multisig.new crypto psm 5 backend)).sign_hex
        9
      ≡ returned (text "0x" ++ crypto.hex_encode bytes))
    × (crypto.from_sec1_bytes (take 64 bytes) (get_or bytes 64 0) ≡ ok ecdsa)
    × (◌≡◌ {A = ℕ} 9 ecdsa)
unfolding get_signature Keystore.new Keystore.external_signature parse_ecdsa_signature
    Keystore.keccak256_hash_word
sign_hex-get_signature_example = sign_hex-get_signature crypto psm one_key none 5 backend 9 9 refl

mpc_key_manager-sizes_example :
    let manager =
      mpc_key_manager crypto psm
        (Multisig.new crypto psm 5 (as_signer crypto (registered crypto (6 ∷ 5 ∷ [])))) in
    (manager.commitment_hex ≡ prefixed_hex crypto (crypto.word_bytes manager.commitment))
    × (length manager.commitment_hex ≡ 66)
    × (hex : Str) × (manager.sign_hex 9 ≡ returned hex)
    × (length hex ≡ 132)
mpc_key_manager-sizes_example = mpc_key_manager-sizes crypto psm crypto-Laws (6 ∷ 5 ∷ []) 5 9 refl

-- A keystore over the simulated signer, run through.
get_signature_run :
    get_signature crypto one_key
      (Keystore.new crypto one_key none (as_signer crypto (registered crypto (5 ∷ []))))
      105
      9
    ≡ returned (ok 14)
unfolding get_signature Keystore.new Keystore.external_signature parse_ecdsa_signature
    Keystore.keccak256_hash_word sign_prehash encode lookup insert register_key MockSigner.new
    copy_from_slice set
get_signature_run = refl

get_public_key-none :
    Keystore.get_public_key crypto one_key (Keystore.passthrough crypto one_key (some 5)) 105 ≡ none
unfolding Keystore.get_public_key
get_public_key-none = refl

-- The simulated key manager passes every method on.
simulated_key_manager_run :
    let (manager, rng) = Multisig.generate crypto psm 5 in
    let fresh = Multisig.simulated_new crypto psm 5 in
    (rng ≡ 6)
    × ((Multisig.simulated_key_manager crypto psm manager).commitment ≡ 105)
    × (Multisig.public_key crypto psm fresh ≡ 105)
    × (Multisig.clone_secret_key crypto psm fresh ≡ 5)
unfolding Multisig.generate Multisig.simulated_new Multisig.simulated_key_manager
    Multisig.public_key Multisig.clone_secret_key
simulated_key_manager_run = (refl, refl, refl, refl)
