-- ===== src/Programs/MultisigDemo.antt =====
-- integration/src/bin/multisig_demo.rs: three key managers, a multisig account, and two signatures.
pub mod Panicking
use brale_miden_demo.Base.{ℕ, ◌-◌, Bool, true, false, List, [], ◌∷◌, ◌++◌, Result, ok, err, map_err}
use brale_miden_demo.Text.{Str, text, len, split_at}
use brale_miden_demo.Crypto.{Crypto}
use brale_miden_demo.Client.{Error}
use brale_miden_demo.Config.{Env, from_env}
use brale_miden_demo.Display.SignerTable.{Signer, print_signer_table}
use brale_miden_demo.Multisig.{Psm, KeyManager, generate, clone_secret_key, simulated_key_manager}
use brale_miden_demo.Programs.Printing.{
  Step, ◌>>=◌, ◌>>◌, print, print_all, unwrap, value, lift, context,
}

-- What miden_multisig_client's `MultisigClient` offers.
pub record MultisigClient (C : Crypto) : Type 1 where
  pub Endpoint : Type 0
  pub State : Type 0
  pub Account : Type 0
  -- `Endpoint::try_from`, its error by what it displays.
  pub endpoint : Str → Result Str Endpoint
  -- The builder, given both endpoints, the account directory and the ECDSA key.
  pub build : Endpoint → Str → Str → C.SecretKey → Result Error State
  pub create_account : ℕ → List C.Word → State → Result Error Account
  pub display_account : Account → Str

abbrev pub signer_of : Str → Str → Bool → Signer
signer_of name hex signed = record { name = name; commitment_hex = hex; signed = signed }

abbrev pub table : Str → Str → Str → Bool → Bool → List Signer
table c1 c2 c3 signed1 signed2 =
    signer_of (text "Signer 1") c1 signed1
    ∷ signer_of (text "Signer 2") c2 signed2
    ∷ signer_of (text "Signer 3") c3 false
    ∷ []

-- The first ten and the last six bytes of a signature. `&sig[..10]` comes first, and has panicked
-- already where `sig.len() - 6` would be below zero.
unfoldable pub signed_line : Str → Str → Step Str
signed_line name sig = do
  first ← unwrap (split_at sig 10)
  last ← unwrap (split_at sig (len sig - 6))
  lift (ok (name ++ (text " signed: " ++ (first.0 ++ (text "..." ++ last.1)))))

module _ (C : Crypto) (P : Psm C) (M : MultisigClient C) where
  unfoldable pub multisig_demo : Env → P.Rng → Step (Unit {0})
  multisig_demo env rng =
      let config = from_env env in
      let (m1, rng) = generate C P rng in
      let (m2, rng) = generate C P rng in
      let (m3, rng) = generate C P rng in
      let km1 = simulated_key_manager C P m1 in
      let km2 = simulated_key_manager C P m2 in
      let km3 = simulated_key_manager C P m3 in
      let signers = table km1.commitment_hex km2.commitment_hex km3.commitment_hex in
      let test_message = km1.commitment in
      do
        print (text "=== Step 1: Generate 3 ECDSA K256 Keypairs ===" ∷ [])
        print_all (print_signer_table (signers false false) 2)
        print ([] ∷ text "=== Step 2: Build MultisigClient ===" ∷ [])
        miden_endpoint ← lift (map_err (λ e. e ∷ []) (M.endpoint config.miden_rpc_endpoint))
        client ← context (text "failed to build MultisigClient") (
            M.build miden_endpoint config.psm_endpoint (text "./multisig-accounts")
              (clone_secret_key C P m1))
        print (
            text "MultisigClient built for signer 1"
            ∷ []
            ∷ text "=== Step 3: Create 2-of-3 Multisig Account ==="
            ∷ [])
        account ←
            context (text "failed to create multisig account")
              (M.create_account 2 (km1.commitment ∷ km2.commitment ∷ km3.commitment ∷ []) client)
        print (
            (text "Multisig account: " ++ M.display_account account)
            ∷ text "Threshold: 2-of-3"
            ∷ []
            ∷ text "=== Step 4: Demonstrate Signing ==="
            ∷ [])
        sig1 ← value (km1.sign_hex test_message)
        line1 ← signed_line (text "Signer 1") sig1
        print (line1 ∷ [])
        print_all (print_signer_table (signers true false) 2)
        sig2 ← value (km2.sign_hex test_message)
        line2 ← signed_line (text "Signer 2") sig2
        print ([] ∷ line2 ∷ [])
        print_all (print_signer_table (signers true true) 2)
        print (
            []
            ∷ text "=== Multisig Demo Complete ==="
            ∷ (text "Account: " ++ M.display_account account)
            ∷ text "Scheme: ECDSA K256 Keccak"
            ∷ text "Signers: 3 generated, 2 signed"
            ∷ []
            ∷ text "To execute a full multisig transaction:"
            ∷ text "  1. Propose a transaction via client.propose(...)"
            ∷ text "  2. Each signer calls client.sign(proposal_id)"
            ∷ text "  3. Once threshold met, client.execute(proposal_id)"
            ∷ [])
