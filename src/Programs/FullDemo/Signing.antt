-- ===== src/Programs/FullDemo/Signing.antt =====
-- What the key store signs that the demo sets up.
use brale_miden_demo.Base.{
  ◌≡◌, refl, subst, [], ◌∷◌, List, some, inl, inr, ok, returned, Result-cases, Bool-cases, arith,
}
use brale_miden_demo.Text.{Str, text}
use brale_miden_demo.Crypto
use brale_miden_demo.Crypto.{Crypto}
use brale_miden_demo.Client.{Client}
use brale_miden_demo.Config.{Config}
use brale_miden_demo.Keystore
use brale_miden_demo.Keystore.{FilesystemKeyStore, BraleKeystore, get_signature}
use brale_miden_demo.Keystore.Laws.{digest_of, get_signature-answered}
use brale_miden_demo.MockSigner.{as_signer, key_commitment}
use brale_miden_demo.MockSigner.Laws.{registered, last_registered, sign_prehash-last}
use brale_miden_demo.MockSigner.Agreement.{parse_ecdsa_signature-encode}
use brale_miden_demo.Operations.Monad.{World, ◌>>=◌, pure, context, call}
use brale_miden_demo.Ledger.Online.{Signing}
use brale_miden_demo.Programs.Setup.{Machine}
use brale_miden_demo.Programs.FullDemo.{TempDir, Setup, set_up, join}
use brale_miden_demo.Programs.FullDemo.Creating.{commitment}

module _ (C : Crypto) (F : FilesystemKeyStore C) (K : Client C) (M : Machine C F K) where
  -- A key store signs whatever it is asked to sign for a commitment.
  abbrev pub Answers : BraleKeystore C F → C.PublicKeyCommitment → Type 0
  Answers keystore key =
      (inputs : C.SigningInputs)
      → (sig : C.Signature) × (get_signature C F keystore key inputs ≡ returned (ok sig))

  -- A client that is built over a key store has signed what that key store signs.
  abbrev pub Backed : Signing C K → Type 0
  Backed G =
      (endpoint : M.Endpoint) (path : Str) (keystore : BraleKeystore C F) (h h' : M.Host)
      (s : K.State) (key : C.PublicKeyCommitment)
      → M.build_client endpoint path keystore h ≡ (ok s, h')
      → Answers keystore key
      → G s key

  registered-Answers :
      Crypto.Laws C
      → (inner : F.Store) (secrets : List C.SecretKey) (key : C.PublicKeyCommitment)
        (secret : C.SecretKey)
      → last_registered C key secrets ≡ some secret
      → Answers (Keystore.new C F inner (as_signer C (registered C secrets))) key
  registered-Answers L inner secrets key secret last inputs = (
    C.ecdsa_signature (C.sign_digest secret (digest_of C F inputs)),
    get_signature-answered C F inner (as_signer C (registered C secrets)) key inputs
        (sign_prehash-last C L secrets key (digest_of C F inputs) secret last)
        (parse_ecdsa_signature-encode C L (C.sign_digest secret (digest_of C F inputs))),
  )

  -- Each of three keys is found, whichever of them are the same.
  module _ (i a b : C.SecretKey) where
    abbrev three : List C.SecretKey
    three = b ∷ a ∷ i ∷ []

    found_b : (s : C.SecretKey) × (last_registered C (key_commitment C b) three ≡ some s)
    found_b =
        let same = (C.commitment_eq.beq_iff (key_commitment C b) (key_commitment C b)).1 refl in
        (b, ground arith)

    found_a : (s : C.SecretKey) × (last_registered C (key_commitment C a) three ≡ some s)
    found_a =
        let same = (C.commitment_eq.beq_iff (key_commitment C a) (key_commitment C a)).1 refl in
        elim (Bool-cases (C.commitment_eq.beq (key_commitment C a) (key_commitment C b))) [
          | inl e ↦ (b, ground arith)
          | inr e ↦ (a, ground arith)
        ]

    found_i : (s : C.SecretKey) × (last_registered C (key_commitment C i) three ≡ some s)
    found_i =
        let same = (C.commitment_eq.beq_iff (key_commitment C i) (key_commitment C i)).1 refl in
        elim (Bool-cases (C.commitment_eq.beq (key_commitment C i) (key_commitment C b))) [
          | inl e ↦ (b, ground arith)
          | inr e ↦
              elim (Bool-cases (C.commitment_eq.beq (key_commitment C i) (key_commitment C a))) [
                | inl e' ↦ (a, ground arith)
                | inr e' ↦ (i, ground arith)
              ]
        ]

  -- The client that the demo sets up has signed what is asked for each of its three keys.
  pub set_up-Signs :
      Crypto.Laws C
      → (G : Signing C K) → Backed G
      → (tempdir : TempDir C F K M) (config : Config) (setup : Setup C F K M) (w w' : World M.Host)
      → set_up C F K M tempdir config w ≡ (ok setup, w')
      → G setup.3 (commitment C K setup.0)
        × G setup.3 (commitment C K setup.1)
        × G setup.3 (commitment C K setup.2)
  unfolding set_up Keystore.new
  set_up-Signs L G backed tempdir config setup w w' h =
      let dir = tempdir w.state in
      let (i, h1) = M.new_secret_key dir.1 in
      let (a, h2) = M.new_secret_key h1 in
      let (b, h3) = M.new_secret_key h2 in
      elim (Result-cases dir.0) [
        | inl (path, ed) ↦ elim (Result-cases (M.endpoint config.miden_rpc_endpoint)) [
          | inl (endpoint, ee) ↦
              let opened = M.open_keystore (join C F K M path (text "keystore")) h3 in
              elim (Result-cases opened.0) [
                | inl (store, eo) ↦
                    let one = M.add_key store (C.ecdsa_key i) opened.1 in
                    elim (Result-cases one.0) [
                      | inl (inner1, e1) ↦
                          let two = M.add_key inner1 (C.ecdsa_key a) one.1 in
                          elim (Result-cases two.0) [
                            | inl (inner2, e2) ↦
                                let all = M.add_key inner2 (C.ecdsa_key b) two.1 in
                                elim (Result-cases all.0) [
                                  | inl (inner3, e3) ↦
                                      built path endpoint inner3 i a b all.1 (ground arith)
                                  | inr (x, e3) ↦ absurd (ground arith)
                                ]
                            | inr (x, e2) ↦ absurd (ground arith)
                          ]
                      | inr (x, e1) ↦ absurd (ground arith)
                    ]
                | inr (x, eo) ↦ absurd (ground arith)
              ]
          | inr (x, ee) ↦ absurd (ground arith)
        ]
        | inr (x, ed) ↦ absurd (ground arith)
      ]
    where
      built :
          (path : Str) (endpoint : M.Endpoint) (inner : F.Store) (i a b : C.SecretKey)
          (host : M.Host)
          → (context (text "failed to build client") (
                  call (
                    M.build_client endpoint
                      (join C F K M path (text "store.sqlite3"))
                      (Keystore.new C F inner (as_signer C (registered C (three i a b))))))
                >>= λ client. pure (C.public_key i, C.public_key a, C.public_key b, client))
              (record { state = host; out = w.out })
            ≡ (ok setup, w')
          → G setup.3 (commitment C K setup.0)
            × G setup.3 (commitment C K setup.1)
            × G setup.3 (commitment C K setup.2)
      built path endpoint inner i a b host e =
          let keystore = Keystore.new C F inner (as_signer C (registered C (three i a b))) in
          let store = join C F K M path (text "store.sqlite3") in
          let made = M.build_client endpoint store keystore host in
          elim (Result-cases made.0) [
            | inl (client, ec) ↦
                let signed : (key : C.PublicKeyCommitment) → Answers keystore key → G client key =
                  λ key answers.
                    backed endpoint store keystore host made.1 client key (λ j. (ec j, made.1))
                      answers in
                let (si, fi) = found_i i a b in
                let (sa, fa) = found_a i a b in
                let (sb, fb) = found_b i a b in
                let found : Setup C F K M =
                  (C.public_key i, C.public_key a, C.public_key b, client) in
                let same : found ≡ setup = ground arith in
                subst
                  (λ (x : Setup C F K M).
                    G x.3 (commitment C K x.0)
                    × G x.3 (commitment C K x.1)
                    × G x.3 (commitment C K x.2))
                  same
                  (
                    signed (key_commitment C i)
                        (registered-Answers L inner (three i a b) (key_commitment C i) si fi),
                    signed (key_commitment C a)
                        (registered-Answers L inner (three i a b) (key_commitment C a) sa fa),
                    signed (key_commitment C b)
                        (registered-Answers L inner (three i a b) (key_commitment C b) sb fb),
                  )
            | inr (x, ec) ↦ absurd (ground arith)
          ]
