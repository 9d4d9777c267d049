-- ===== src/Programs/Setup/Signing.antt =====
-- What the key store signs that a program sets up.
use brale_miden_demo.Base.{
  ◌≡◌, refl, [], ◌∷◌, ◌++◌, inl, inr, Result, ok, err, Result-cases, Bool-cases, returned,
  if◌then◌else◌, arith, subst, sym,
}
use brale_miden_demo.Text.{text}
use brale_miden_demo.Crypto
use brale_miden_demo.Crypto.{Crypto}
use brale_miden_demo.Client.{Client}
use brale_miden_demo.Config.{Config}
use brale_miden_demo.Keystore
use brale_miden_demo.Keystore.{FilesystemKeyStore, AuthError, other, get_signature}
use brale_miden_demo.Keystore.Laws.{digest_of, get_signature-answered}
use brale_miden_demo.MockSigner.{as_signer, key_commitment}
use brale_miden_demo.MockSigner.Laws.{registered, sign_prehash-last, sign_prehash-registered}
use brale_miden_demo.MockSigner.Agreement.{parse_ecdsa_signature-encode}
use brale_miden_demo.Operations.Monad.{World}
use brale_miden_demo.Programs.Setup.{Machine, Prepared, prepare}

module _ (C : Crypto) (F : FilesystemKeyStore C) (K : Client C) (M : Machine C F K) where
  -- The answer to a request where only one key is registered.
  abbrev pub signed_by :
      C.SecretKey → C.PublicKeyCommitment → C.SigningInputs → Result (AuthError C F) C.Signature
  signed_by secret key inputs =
      if C.commitment_eq.beq key (key_commitment C secret)
      then ok (C.ecdsa_signature (C.sign_digest secret (digest_of C F inputs)))
      else err (other (text "signing failed: " ++ (text "unknown key commitment: " ++ C.debug key)))

  pub one_key :
      Crypto.Laws C
      → (inner : F.Store) (secret : C.SecretKey) (key : C.PublicKeyCommitment)
        (inputs : C.SigningInputs)
      → get_signature C F
          (Keystore.new C F inner (as_signer C (registered C (secret ∷ []))))
          key
          inputs
        ≡ returned (signed_by secret key inputs)
  unfolding get_signature Keystore.new Keystore.external_signature Keystore.keccak256_hash_word
  one_key L inner secret key inputs =
      let digest = digest_of C F inputs in
      elim (Bool-cases (C.commitment_eq.beq key (key_commitment C secret))) [
        | inl same ↦ ground (
          arith,
          get_signature-answered C F inner (as_signer C (registered C (secret ∷ []))) key inputs
              (sign_prehash-last C L (secret ∷ []) key digest secret (rw same))
              (parse_ecdsa_signature-encode C L (C.sign_digest secret digest)),
        )
        | inr other' ↦ ground (arith, sign_prehash-registered C L (secret ∷ []) key digest)
      ]

  -- The key store of a program after its preparation, and its public key.
  pub prepare-keystore :
      (config : Config) (p : Prepared C F K M) (w w' : World M.Host)
      → prepare C F K M config w ≡ (ok p, w')
      → (inner : F.Store) × (secret : C.SecretKey) × (secret ≡ (M.new_secret_key w.state).0)
        × (p.public_key ≡ C.public_key secret)
        × (p.keystore ≡ Keystore.new C F inner (as_signer C (registered C (secret ∷ []))))
        × (w'.out ≡ w.out)
  unfolding prepare Keystore.new
  prepare-keystore config p w w' h =
      let (secret, host) = M.new_secret_key w.state in
      let opened = M.open_keystore config.keystore_path host in
      elim (Result-cases (M.endpoint config.miden_rpc_endpoint)) [
        | inl (endpoint, ee) ↦ elim (Result-cases opened.0) [
          | inl (store, eo) ↦
              elim (Result-cases (M.add_key store (C.ecdsa_key secret) opened.1).0) [
                | inl (inner, ea) ↦
                    let keystore =
                      Keystore.new C F inner (as_signer C (registered C (secret ∷ []))) in
                    elim (Result-cases
                      (M.build_client endpoint config.sqlite_store_path keystore
                        (M.add_key store (C.ecdsa_key secret) opened.1).1).0) [
                          | inl (client, eb) ↦
                              (inner, secret, refl, ground arith, ground arith, ground arith)
                          | inr (x, eb) ↦ absurd (ground arith)
                        ]
                | inr (x, ea) ↦ absurd (ground arith)
              ]
          | inr (x, eo) ↦ absurd (ground arith)
        ]
        | inr (x, ee) ↦ absurd (ground arith)
      ]

  -- The key store of a program that was prepared signs for the commitment of the program's fresh public
  -- key, with the fresh key, and refuses every other commitment by name, whatever the key store on the
  -- disk holds.
  pub prepare-signs :
      Crypto.Laws C
      → (config : Config) (p : Prepared C F K M) (w w' : World M.Host)
      → prepare C F K M config w ≡ (ok p, w')
      → (secret : C.SecretKey) × (p.public_key ≡ C.public_key secret)
        × ((key : C.PublicKeyCommitment) (inputs : C.SigningInputs)
            → get_signature C F p.keystore key inputs ≡ returned (signed_by secret key inputs))
  prepare-signs L config p w w' h =
      let (inner, secret, _, public, keystore, _) = prepare-keystore config p w w' h in
      (
        secret,
        public,
        λ key inputs.
            subst (λ k. get_signature C F k key inputs ≡ returned (signed_by secret key inputs))
              (sym keystore) (one_key L inner secret key inputs),
      )
