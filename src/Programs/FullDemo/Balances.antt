-- ===== src/Programs/FullDemo/Balances.antt =====
-- The demo as a whole: the ledger of its token at the end.
use brale_miden_demo.Base.{
  ◌≡◌, sym, ◌∙◌, ap, subst, [], ◌∷◌, ◌++◌, append_assoc, List, inl, inr, ok, Result-cases, arith,
}
use brale_miden_demo.Text.{Str, text}
use brale_miden_demo.Crypto.{Crypto}
use brale_miden_demo.Client
use brale_miden_demo.Client.{Client, AccountBuilder}
use brale_miden_demo.Config.{Env}
use brale_miden_demo.Keystore.{FilesystemKeyStore}
use brale_miden_demo.Programs.Setup.{Machine}
use brale_miden_demo.Operations.Monad.{World, Action, ◌>>◌, pure}
use brale_miden_demo.Ledger.Laws.{Laws}
use brale_miden_demo.Ledger.Alone.{Alone}
use brale_miden_demo.Ledger.Operations.{seen}
use brale_miden_demo.Programs.FullDemo.Ran.{full_demo-ran}
use brale_miden_demo.Programs.FullDemo.{
  TempDir, Setup, finished, full_demo, heading, create_accounts, mint_step, transfer_step,
  burn_step, demo,
}
use brale_miden_demo.Programs.FullDemo.Amounts.{
  Apart-different, Holds, burnt_down-Holds, Apart, fresh, paid_in, moved, burnt_down,
}
use brale_miden_demo.Programs.FullDemo.Quiet.{create_accounts-Moves}
use brale_miden_demo.Programs.FullDemo.Tables.{
  Listed, table, one_table, two_tables, Ends, then-Ends, At, Last,
}
use brale_miden_demo.Programs.FullDemo.Reporting.{
  mint_step-Ends, transfer_step-Ends, burn_step-Ends,
}
use brale_miden_demo.Ledger.Shows.{Shows}

module _ (C : Crypto) (K : Client C) where
  -- The last line.
  abbrev pub complete :
      K.AccountId × K.AccountId × K.AccountId
      → Action K.State (K.AccountId × K.AccountId × K.AccountId)
  complete ids = heading (text "Full demo complete!") >> pure ids

  -- Steps 3 to 5 and the last line, for the accounts that were made.
  abbrev pub steps :
      K.AccountId × K.AccountId × K.AccountId
      → Action K.State (K.AccountId × K.AccountId × K.AccountId)
  steps (i, a, b) =
      mint_step C K i a b
      >> (transfer_step C K i a b >> (burn_step C K i a b >> complete (i, a, b)))

  pub steps_value :
      (ids ids' : K.AccountId × K.AccountId × K.AccountId) (w w' : World K.State)
      → steps ids w ≡ (ok ids', w')
      → ids' ≡ ids
  steps_value (i, a, b) ids' w w' h = ground arith

module _ (C : Crypto) (K : Client C) (issuer : K.AccountId) (H : Laws C K issuer)
    (A : Alone C K issuer H) (S : Shows C K issuer H) where
  -- The ledger at the end, the lines that were printed last, and the tables before them.
  abbrev pub Reported : K.AccountId → K.AccountId → World K.State → Type 0
  Reported a b =
      Last C K issuer H A (burnt_down issuer a b) two_tables
        (table 900 700 200 ++ ([] ∷ text "Full demo complete!" ∷ []))

  module _ (a b : K.AccountId) (D : Apart H.account_eq issuer a b) where
    complete-Ends :
        Ends C K
          (complete C K (issuer, a, b))
          (Last C K issuer H A (burnt_down issuer a b) two_tables (table 900 700 200))
          (Reported a b)
    complete-Ends = record {
      holds = λ ids w w' h (ledger, before, out, listed).
          let line : List Str = [] ∷ text "Full demo complete!" ∷ [] in
          let ended : w' ≡ record w { out = w.out ++ line } = ground arith in
          (
            ap (λ (x : World K.State). H.view x.state) ended ∙ ledger,
            before,
            ap (λ (x : World K.State). x.out) ended
                ∙ (ap (λ l. l ++ line) out ∙ append_assoc before (table 900 700 200) line),
            listed,
          );
    }

    steps-Ends :
        Ends C K (steps C K (issuer, a, b)) (At C K issuer H A (fresh issuer a b) []) (Reported a b)
    steps-Ends =
        let minted = At C K issuer H A (paid_in issuer a b) one_table in
        let transferred = At C K issuer H A (moved issuer a b) two_tables in
        let burned = Last C K issuer H A (burnt_down issuer a b) two_tables (table 900 700 200) in
        then-Ends C K _ _ (At C K issuer H A (fresh issuer a b) []) minted (Reported a b)
          (mint_step-Ends C K issuer H A S a b D)
          (then-Ends C K _ _ minted transferred (Reported a b)
            (transfer_step-Ends C K issuer H A S a b D)
            (then-Ends C K _ _ transferred burned (Reported a b)
              (burn_step-Ends C K issuer H A S a b D) complete-Ends))

    demo-Reported :
        (issuer_pk wallet_a_pk wallet_b_pk : C.PublicKey) (mode : Client.AccountStorageMode)
        (w w' : World K.State)
        → seen C K issuer H w ≡ fresh issuer a b
        → demo C K issuer_pk wallet_a_pk wallet_b_pk mode w ≡ (ok (issuer, a, b), w')
        → Reported a b w'
    unfolding demo
    demo-Reported issuer_pk wallet_a_pk wallet_b_pk mode w w' new h =
        elim (Result-cases (K.sync_state w.state).0) [
          | inl (s, es) ↦
              let v : World K.State = record w { state = (K.sync_state w.state).1 } in
              let made = create_accounts C K issuer_pk wallet_a_pk wallet_b_pk mode v in
              elim (Result-cases made.0) [
                | inl (accounts, ea) ↦
                    let found : K.AccountId × K.AccountId × K.AccountId =
                      (K.account_id accounts.0, K.account_id accounts.1, K.account_id accounts.2) in
                    let done : steps C K found made.1 ≡ (ok (issuer, a, b), w') = ground arith in
                    let same = steps_value C K found (issuer, a, b) made.1 w' done in
                    steps-Ends.holds (issuer, a, b) made.1 w'
                      (subst (λ ids. steps C K ids made.1 ≡ (ok (issuer, a, b), w')) (sym same)
                        done)
                      (
                        (create_accounts-Moves C K issuer H A issuer_pk wallet_a_pk wallet_b_pk mode
                              (fresh issuer a b)).holds
                            accounts v made.1 (λ i. (ea i, made.1)) (A.synced_same w.state ∙ new),
                        tt,
                      )
                | inr (x, ex) ↦ absurd (ground arith)
              ]
          | inr (x, ex) ↦ absurd (ground arith)
        ]

module _ (C : Crypto) (F : FilesystemKeyStore C) (K : Client C) (M : Machine C F K)
    (issuer : K.AccountId) (H : Laws C K issuer) (A : Alone C K issuer H)
    (S : Shows C K issuer H) where
  -- If the demo ends without an error, made three different accounts, nobody else acts on its token,
  -- of which there was nothing before, and the client's accounts hold what the ledger of the token says,
  -- then at the end the supply is 900, the first wallet holds 700 and the second 200, and no note is in
  -- flight; and the last lines printed are the table of these amounts and the demo's last line, with the
  -- tables of 1000, 700 and 300 and of 1000, 1000 and 0 before them, the latter first.
  pub full_demo-balances :
      (tempdir : TempDir C F K M) (env : Env) (args : List Str) (host : M.Host)
      (setup : Setup C F K M) (a b : K.AccountId) (w' : World K.State)
      → H.view setup.3 ≡ fresh issuer a b
      → ¬ (a ≡ issuer)
      → ¬ (b ≡ issuer)
      → ¬ (b ≡ a)
      → full_demo C F K M tempdir env args host ≡ finished setup (ok (issuer, a, b)) w'
      → Holds H.account_eq (H.view w'.state) 900 (a, 700) (b, 200)
        × (before : List Str) × (w'.out
            ≡ before ++ (table 900 700 200 ++ ([] ∷ text "Full demo complete!" ∷ [])))
        × Listed two_tables before
  full_demo-balances tempdir env args host setup a b w' new ai bi ba h =
      let (mode, w, e, ran) =
        full_demo-ran C F K M tempdir env args host setup (ok (issuer, a, b)) w' h in
      let D = Apart-different H.account_eq issuer a b ai bi ba in
      let (ledger, before, out, listed) =
        demo-Reported C K issuer H A S a b D setup.0 setup.1 setup.2 mode w w' (ap H.view e ∙ new)
          ran in
      (
        subst (λ l. Holds H.account_eq l 900 (a, 700) (b, 200)) (sym ledger)
            (burnt_down-Holds H.account_eq issuer a b D),
        before,
        out,
        listed,
      )
