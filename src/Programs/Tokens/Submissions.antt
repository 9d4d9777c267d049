-- ===== src/Programs/Tokens/Submissions.antt =====
-- Which submissions the programs make.
use brale_miden_demo.Base.{
  ℕ, [], ◌∷◌, ◌++◌, ◌≡◌, ◌⊎◌, List, inl, inr, append-nil, Result, ok, err, Result-cases, arith,
}
use brale_miden_demo.Text.{Str}
use brale_miden_demo.Crypto.{Crypto}
use brale_miden_demo.Client
use brale_miden_demo.Client.{Client, Error}
use brale_miden_demo.Config.{Env, from_env}
use brale_miden_demo.Keystore.{FilesystemKeyStore}
use brale_miden_demo.Operations.Monad.{Action}
use brale_miden_demo.Operations.Recorded.{Traced}
use brale_miden_demo.Operations.Recorded.Submissions.{R, W, moved}
use brale_miden_demo.Programs.Setup.{Machine, Prepared}
use brale_miden_demo.Programs.Arguments.Laws.{Accepted}
use brale_miden_demo.Programs.Tokens.{synced_then}

module _ (C : Crypto) (K : Client C) where
  abbrev synced : W C K → W C K
  synced w = moved C K w (K.sync_state w.state.0).1

  -- After a sync an operation had its outcome, and then its line was printed; or the sync failed, and no
  -- submission was made and nothing was printed; or the operation failed with its outcome.
  abbrev pub Reported :
      (W C K → Result Error (Unit {0}) → W C K → Type 0)
      → Str
      → W C K
      → Result Error (Unit {0})
      → W C K
      → Type 0
  Reported Outcome line w (ok _) w' =
      (v : W C K) × Outcome (synced w) (ok tt) v × (w' ≡ record v { out = v.out ++ (line ∷ []) })
  Reported Outcome line w (err e) w' =
      ((x : Error) × ((K.sync_state w.state.0).0 ≡ err x) × Traced C K w w' [])
      ⊎ Outcome (synced w) (err e) w'

  pub synced_then-Reported :
      (F : FilesystemKeyStore C) (M : Machine C F (R C K))
      (Outcome : W C K → Result Error (Unit {0}) → W C K → Type 0)
      (operation : Action (R C K).State (Unit {0})) (line : Str)
      → ((r : Result Error (Unit {0})) (w w' : W C K) → operation w ≡ (r, w') → Outcome w r w')
      → (r : Result Error (Unit {0})) (w w' : W C K)
      → synced_then C F (R C K) M operation line w ≡ (r, w')
      → Reported Outcome line w r w'
  synced_then-Reported F M Outcome operation line outcome (ok u) w w' h =
      elim (Result-cases (K.sync_state w.state.0).0) [
        | inl (s, es) ↦
            let after = operation (synced w) in
            elim (Result-cases after.0) [
              | inl (u', eo) ↦
                  (after.1, outcome (ok tt) (synced w) after.1 (λ i. (eo i, after.1)), ground arith)
              | inr (x, eo) ↦ absurd (ground arith)
            ]
        | inr (x, es) ↦ absurd (ground arith)
      ]
  synced_then-Reported F M Outcome operation line outcome (err e) w w' h =
      elim (Result-cases (K.sync_state w.state.0).0) [
        | inl (s, es) ↦
            let after = operation (synced w) in
            elim (Result-cases after.0) [
              | inl (u', eo) ↦ absurd (ground arith)
              | inr (x, eo) ↦ inr (outcome (err e) (synced w) w' (ground arith))
            ]
        | inr (x, es) ↦ inl (x, es, ground (arith, append-nil w.state.1, append-nil w.out))
      ]

module _ (C : Crypto) (F : FilesystemKeyStore C) (K : Client C) (M : Machine C F (R C K)) where
  -- The client of a program, with nothing printed yet.
  abbrev pub opened : Prepared C F (R C K) M → W C K
  opened p = record { state = p.client; out = [] }

  -- An issuer, another account and an amount that were read as the arguments say, and what was reported
  -- of an operation on them.
  abbrev pub Requested :
      (K.AccountId → K.AccountId → ℕ → W C K → Result Error (Unit {0}) → W C K → Type 0)
      → (K.AccountId → K.AccountId → ℕ → Str)
      → Env
      → List Str
      → Prepared C F (R C K) M
      → Result Error (Unit {0})
      → W C K
      → Type 0
  Requested Outcome line env args p r w' =
      (issuer : K.AccountId) × (other : K.AccountId) × (amount : ℕ) × Accepted C F (R C K) M
        (from_env env) args issuer other amount
      × Reported C K (Outcome issuer other amount) (line issuer other amount) (opened p) r w'
