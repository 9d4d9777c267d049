-- ===== src/Programs/MultisigDemo/Panicking.antt =====
-- The demo does not panic, and fails only where its client does.
use brale_miden_demo.Base.{
  true, false, ◌-◌, ◌≡◌, Bool, List, [], ◌∷◌, ◌++◌, inl, inr, length, take, drop, ok, map_err, bind,
  returned, Result-cases, arith,
}
use brale_miden_demo.Text.{Str, text}
use brale_miden_demo.Text.Laws.{IsAscii, len-eq-length, split_at-ascii}
use brale_miden_demo.Crypto.{Crypto}
use brale_miden_demo.Config.{Env, from_env}
use brale_miden_demo.Display.SignerTable.{print_signer_table, summary}
use brale_miden_demo.Display.SignerTable.Laws.{boxed_lem, box, count_signed}
use brale_miden_demo.Multisig.{Psm, generate, clone_secret_key, simulated_key_manager}
use brale_miden_demo.Programs.Printing.{lift}
use brale_miden_demo.Programs.MultisigDemo.{MultisigClient, table, signed_line, multisig_demo}

-- What the PSM store documents of its texts: hexadecimal digits after `0x`, for a signature of 65
-- bytes.
pub record HexLaws (C : Crypto) (P : Psm C) : Type 0 where
  pub commitment_hex-ascii : (store : P.EcdsaPsmKeyStore) → IsAscii (P.store_commitment_hex store)
  pub sign_hex-ascii :
      (store : P.EcdsaPsmKeyStore) (message : C.Word) → IsAscii (P.store_sign_hex store message)
  pub length-sign_hex :
      (store : P.EcdsaPsmKeyStore) (message : C.Word)
      → length (P.store_sign_hex store message) ≡ 132

-- A table of three ASCII commitments does not panic.
table_printed :
    (c1 c2 c3 : Str) (b1 b2 : Bool)
    → IsAscii c1
    → IsAscii c2
    → IsAscii c3
    → print_signer_table (table c1 c2 c3 b1 b2) 2 ≡ (
      box (table c1 c2 c3 b1 b2) ++ (summary (count_signed (table c1 c2 c3 b1 b2)) 3 2 ∷ []),
      returned tt,
    )
table_printed c1 c2 c3 b1 b2 h1 h2 h3 =
    boxed_lem (table c1 c2 c3 b1 b2) 2 (h1, (h2, (h3, tt))) (omega arith)

-- The line of a signature.
line_of : Str → Str → Str
line_of name sig =
    name ++ (text " signed: " ++ (take 10 sig ++ (text "..." ++ drop (length sig - 6) sig)))

signed_line_lem :
    (name sig : Str)
    → IsAscii sig
    → length sig ≡ 132
    → signed_line name sig ≡ lift (ok (line_of name sig))
unfolding signed_line line_of
signed_line_lem name sig h e = rw (
  len-eq-length sig h,
  split_at-ascii sig 10 h (omega arith),
  split_at-ascii sig (length sig - 6) h (omega arith),
)

module _ (C : Crypto) (P : Psm C) (M : MultisigClient C) where
  -- The demo never panics, and it ends with the first error of the endpoint, of the client's builder and
  -- of the creation of the account with the three commitments and threshold 2, or without an error.
  pub multisig_demo-returned :
      HexLaws C P
      → (env : Env) (rng : P.Rng) (out : List Str)
      → let (m1, rng1) = generate C P rng in
        let (m2, rng2) = generate C P rng1 in
        let (m3, rng3) = generate C P rng2 in
        (multisig_demo C P M env rng out).0
        ≡ returned (
            bind (map_err (λ e. e ∷ []) (M.endpoint (from_env env).miden_rpc_endpoint)) (λ endpoint.
              bind
                (map_err
                  (λ e. text "failed to build MultisigClient" ∷ e)
                  (M.build endpoint
                    (from_env env).psm_endpoint
                    (text "./multisig-accounts")
                    (clone_secret_key C P m1)))
                (λ client.
                  bind
                    (map_err
                      (λ e. text "failed to create multisig account" ∷ e)
                      (M.create_account 2
                        ((simulated_key_manager C P m1).commitment
                          ∷ (simulated_key_manager C P m2).commitment
                          ∷ (simulated_key_manager C P m3).commitment
                          ∷ [])
                        client))
                    (λ _. ok tt))))
  unfolding multisig_demo simulated_key_manager generate clone_secret_key
  multisig_demo-returned L env rng out =
      let (s1, rng1) = P.generate rng in
      let (s2, rng2) = P.generate rng1 in
      let (s3, rng3) = P.generate rng2 in
      let hex = P.store_commitment_hex in
      let message = P.store_commitment s1 in
      let printed = λ (b1 b2 : Bool).
        table_printed (hex s1) (hex s2) (hex s3) b1 b2 (L.commitment_hex-ascii s1)
          (L.commitment_hex-ascii s2) (L.commitment_hex-ascii s3) in
      let line1 =
        signed_line_lem (text "Signer 1") (P.store_sign_hex s1 message)
          (L.sign_hex-ascii s1 message) (L.length-sign_hex s1 message) in
      let line2 =
        signed_line_lem (text "Signer 2") (P.store_sign_hex s2 message)
          (L.sign_hex-ascii s2 message) (L.length-sign_hex s2 message) in
      elim (Result-cases (M.endpoint (from_env env).miden_rpc_endpoint)) [
        | inl (endpoint, ee) ↦
            elim (Result-cases (
              M.build endpoint (from_env env).psm_endpoint (text "./multisig-accounts")
                (P.clone_ecdsa_secret_key s1))) [
                  | inl (client, eb) ↦
                      elim (Result-cases (
                        M.create_account 2
                          (message ∷ P.store_commitment s2 ∷ P.store_commitment s3 ∷ []) client)) [
                            | inl (account, ea) ↦ rw (
                              printed false false,
                              ee,
                              eb,
                              ea,
                              line1,
                              printed true false,
                              line2,
                              printed true true,
                            )
                            | inr (x, ea) ↦ rw (printed false false, ee, eb, ea)
                          ]
                  | inr (x, eb) ↦ rw (printed false false, ee, eb)
                ]
        | inr (x, ee) ↦ rw (printed false false, ee)
      ]
