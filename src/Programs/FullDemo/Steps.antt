-- ===== src/Programs/FullDemo/Steps.antt =====
-- The steps of the demo in order, and the whole of it.
use brale_miden_demo.Base.{
  ◌≡◌, refl, [], ◌∷◌, ◌++◌, List, append-nil, inl, inr, ok, Result-cases, arith,
}
use brale_miden_demo.Text.{Str, text}
use brale_miden_demo.Crypto.{Crypto}
use brale_miden_demo.Client
use brale_miden_demo.Client.{Client, Error}
use brale_miden_demo.Config.{Env}
use brale_miden_demo.Keystore.{FilesystemKeyStore}
use brale_miden_demo.Programs.Setup.{Machine}
use brale_miden_demo.Operations.Monad.{Action, ◌>>=◌, ◌>>◌, pure}
use brale_miden_demo.Operations.Recorded.Submissions.{R, W}
use brale_miden_demo.Programs.FullDemo.Ran.{full_demo-ran}
use brale_miden_demo.Programs.FullDemo.{
  TempDir, Setup, finished, full_demo, heading, create_accounts, mint_step, transfer_step,
  burn_step, demo,
}
use brale_miden_demo.Programs.FullDemo.Executors.{
  executors, Executed, burn_tokens-Executed, consume_notes-Executed, deploy-Executed,
  mint_tokens-Executed, print_lines-Executed, print_state-Executed, println-Executed,
  quiet-Executed, sync-Executed, then-Executed, transfer_tokens-Executed, wallet-Executed,
}

module _ (C : Crypto) (K : Client C) where
  module _ {A B : Type 0} (m : Action (R C K).State A) where
    -- The rest after an action that submits nothing, and two statements of a block.
    after_quiet :
        (f : A → Action (R C K).State B) (ids : List K.AccountId)
        → Executed C K m []
        → ((a : A) → Executed C K (f a) ids)
        → Executed C K (m >>= f) ids
    after_quiet f ids hm hf = then-Executed C K m f [] ids hm hf

    next_quiet :
        (k : Action (R C K).State B) (ids : List K.AccountId)
        → Executed C K m []
        → Executed C K k ids
        → Executed C K (m >> k) ids
    next_quiet k ids hm hk = then-Executed C K m (λ _. k) [] ids hm (λ _. hk)

    next :
        (k : Action (R C K).State B) (ids ids' : List K.AccountId)
        → Executed C K m ids
        → Executed C K k ids'
        → Executed C K (m >> k) (ids ++ ids')
    next k ids ids' hm hk = then-Executed C K m (λ _. k) ids ids' hm (λ _. hk)

  create_accounts-Executed :
      (issuer_pk wallet_a_pk wallet_b_pk : C.PublicKey) (mode : Client.AccountStorageMode)
      → Executed C K (create_accounts C (R C K) issuer_pk wallet_a_pk wallet_b_pk mode) []
  unfolding create_accounts
  create_accounts-Executed issuer_pk wallet_a_pk wallet_b_pk mode =
      next_quiet _ _ [] (print_lines-Executed C K _) (
        after_quiet _ _ [] (deploy-Executed C K issuer_pk (text "USDB") 6 1000000000000) (λ _.
          next_quiet _ _ [] (println-Executed C K _) (
            next_quiet _ _ [] (print_lines-Executed C K _) (
              after_quiet _ _ [] (wallet-Executed C K wallet_a_pk mode) (λ _.
                next_quiet _ _ [] (println-Executed C K _) (
                  after_quiet _ _ [] (wallet-Executed C K wallet_b_pk mode) (λ _.
                    next_quiet _ _ [] (println-Executed C K _) (
                      next_quiet _ _ [] (sync-Executed C K _)
                        (quiet-Executed C K (pure _) (λ w. refl))))))))))

  mint_step-Executed : (i a b : K.AccountId) → Executed C K (mint_step C (R C K) i a b) (i ∷ a ∷ [])
  unfolding mint_step
  mint_step-Executed i a b = next_quiet _ _ (i ∷ a ∷ []) (print_lines-Executed C K _) (
      next _ _ (i ∷ []) (a ∷ []) (mint_tokens-Executed C K i a 1000) (
        next_quiet _ _ (a ∷ []) (println-Executed C K _) (
          next _ _ (a ∷ []) [] (consume_notes-Executed C K a)
            (next_quiet _ _ [] (println-Executed C K _) (print_state-Executed C K i a b)))))

  transfer_step-Executed :
      (i a b : K.AccountId) → Executed C K (transfer_step C (R C K) i a b) (a ∷ b ∷ [])
  unfolding transfer_step
  transfer_step-Executed i a b = next_quiet _ _ (a ∷ b ∷ []) (print_lines-Executed C K _) (
      next _ _ (a ∷ []) (b ∷ []) (transfer_tokens-Executed C K a b i 300) (
        next_quiet _ _ (b ∷ []) (println-Executed C K _) (
          next _ _ (b ∷ []) [] (consume_notes-Executed C K b)
            (next_quiet _ _ [] (println-Executed C K _) (print_state-Executed C K i a b)))))

  burn_step-Executed : (i a b : K.AccountId) → Executed C K (burn_step C (R C K) i a b) (b ∷ i ∷ [])
  unfolding burn_step
  burn_step-Executed i a b = next_quiet _ _ (b ∷ i ∷ []) (print_lines-Executed C K _) (
      next _ _ (b ∷ i ∷ []) [] (burn_tokens-Executed C K b i 100)
        (next_quiet _ _ [] (println-Executed C K _) (print_state-Executed C K i a b)))

  -- Steps 3 to 5 and the last line, for the accounts that were made.
  abbrev steps :
      K.AccountId × K.AccountId × K.AccountId
      → Action (R C K).State (K.AccountId × K.AccountId × K.AccountId)
  steps (i, a, b) =
      mint_step C (R C K) i a b
      >> (transfer_step C (R C K) i a b
          >> (burn_step C (R C K) i a b
              >> (heading (text "Full demo complete!") >> pure (i, a, b))))

  abbrev six : K.AccountId × K.AccountId × K.AccountId → List K.AccountId
  six (i, a, b) = i ∷ a ∷ a ∷ b ∷ b ∷ i ∷ []

  steps-Executed :
      (ids : K.AccountId × K.AccountId × K.AccountId) → Executed C K (steps ids) (six ids)
  steps-Executed (i, a, b) = next _ _ (i ∷ a ∷ []) (a ∷ b ∷ b ∷ i ∷ []) (mint_step-Executed i a b) (
      next _ _ (a ∷ b ∷ []) (b ∷ i ∷ []) (transfer_step-Executed i a b) (
        next _ _ (b ∷ i ∷ []) [] (burn_step-Executed i a b) (
          next_quiet _ _ [] (print_lines-Executed C K _)
            (quiet-Executed C K (pure _) (λ w. refl)))))

  steps_value :
      (ids ids' : K.AccountId × K.AccountId × K.AccountId) (w w' : W C K)
      → steps ids w ≡ (ok ids', w')
      → ids' ≡ ids
  steps_value (i, a, b) ids' w w' h = ground arith

  demo-executors :
      (issuer_pk wallet_a_pk wallet_b_pk : C.PublicKey) (mode : Client.AccountStorageMode)
      (ids : K.AccountId × K.AccountId × K.AccountId) (w w' : W C K)
      → demo C (R C K) issuer_pk wallet_a_pk wallet_b_pk mode w ≡ (ok ids, w')
      → executors C K w'.state.1
        ≡ executors C K w.state.1 ++ (ids.0 ∷ ids.1 ∷ ids.1 ∷ ids.2 ∷ ids.2 ∷ ids.0 ∷ [])
  unfolding demo
  demo-executors issuer_pk wallet_a_pk wallet_b_pk mode ids w w' h =
      elim (Result-cases (K.sync_state w.state.0).0) [
        | inl (s, es) ↦
            let v : W C K = record w { state = ((K.sync_state w.state.0).1, w.state.1) } in
            let made = create_accounts C (R C K) issuer_pk wallet_a_pk wallet_b_pk mode v in
            elim (Result-cases made.0) [
              | inl (accounts, ea) ↦
                  let found : K.AccountId × K.AccountId × K.AccountId =
                    (K.account_id accounts.0, K.account_id accounts.1, K.account_id accounts.2) in
                  let done : steps found made.1 ≡ (ok ids, w') = ground arith in
                  ground (
                    arith,
                    steps_value found ids made.1 w' done,
                    (steps-Executed found).holds ids made.1 w' done,
                    (create_accounts-Executed issuer_pk wallet_a_pk wallet_b_pk mode).holds accounts
                        v made.1 (λ i. (ea i, made.1)),
                    append-nil (executors C K w.state.1),
                  )
              | inr (x, ex) ↦ absurd (ground arith)
            ]
        | inr (x, ex) ↦ absurd (ground arith)
      ]

module _ (C : Crypto) (F : FilesystemKeyStore C) (K : Client C) (M : Machine C F (R C K)) where
  -- If the demo ends without an error, then exactly six submissions were made to its client,
  -- executed by the issuer, by the first wallet twice, by the second wallet twice and by the issuer, in
  -- this order.
  pub full_demo-executors :
      (tempdir : TempDir C F (R C K) M) (env : Env) (args : List Str) (host : M.Host)
      (setup : Setup C F (R C K) M) (ids : K.AccountId × K.AccountId × K.AccountId) (w' : W C K)
      → full_demo C F (R C K) M tempdir env args host ≡ finished setup (ok ids) w'
      → executors C K w'.state.1
        ≡ executors C K setup.3.1 ++ (ids.0 ∷ ids.1 ∷ ids.1 ∷ ids.2 ∷ ids.2 ∷ ids.0 ∷ [])
  full_demo-executors tempdir env args host setup ids w' h =
      let (mode, w, e, ran) =
        full_demo-ran C F (R C K) M tempdir env args host setup (ok ids) w' h in
      ground (arith, demo-executors C K setup.0 setup.1 setup.2 mode ids w w' ran)
