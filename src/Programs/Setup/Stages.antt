-- ===== src/Programs/Setup/Stages.antt =====
-- The stages of a program's run.
use brale_miden_demo.Base.{◌≡◌, [], inl, inr, Result, ok, Result-cases, arith}
use brale_miden_demo.Crypto.{Crypto}
use brale_miden_demo.Client.{Client, Error}
use brale_miden_demo.Config.{Config}
use brale_miden_demo.Keystore.{FilesystemKeyStore}
use brale_miden_demo.Operations.Monad.{World, Action}
use brale_miden_demo.Programs.Setup.{Machine, Prepared, run, ran, prepare}
use brale_miden_demo.Programs.Setup.Signing.{prepare-keystore}

module _ (C : Crypto) (F : FilesystemKeyStore C) (K : Client C) (M : Machine C F K) where
  -- The stages of a program that has come to have a client.
  abbrev pub Stages :
      {A : Type 0}
      → Action M.Host A
      → Config
      → (A → Prepared C F K M → Action K.State (Unit {0}))
      → M.Host
      → Prepared C F K M
      → Result Error (Unit {0})
      → World K.State
      → Type 0
  Stages {A = A} arguments config body host p r w' =
      (a : A) × (w : World M.Host) × (arguments (record { state = host; out = [] }) ≡ (ok a, w))
      × (body a p (record { state = p.client; out = w.out }) ≡ (r, w'))

  pub run-ran :
      {A : Type 0} (arguments : Action M.Host A) (config : Config)
      (body : A → Prepared C F K M → Action K.State (Unit {0})) (host : M.Host)
      (p : Prepared C F K M) (r : Result Error (Unit {0})) (w' : World K.State)
      → run C F K M arguments config body host ≡ ran p r w'
      → Stages arguments config body host p r w'
  unfolding run
  run-ran arguments config body host p r w' h =
      let read = arguments (record { state = host; out = [] }) in
      elim (Result-cases read.0) [
        | inl (a, ea) ↦
            let made = prepare C F K M config read.1 in
            elim (Result-cases made.0) [
              | inl (q, eq) ↦
                  let (_, _, _, _, _, quiet) =
                    prepare-keystore C F K M config q read.1 made.1 (λ i. (eq i, made.1)) in
                  (a, read.1, (λ i. (ea i, read.1)), ground arith)
              | inr (x, eq) ↦ absurd (ground arith)
            ]
        | inr (x, ea) ↦ absurd (ground arith)
      ]

  -- A program whose arguments are accepted runs on what they name.
  pub run-accepted :
      {A : Type 0} (arguments : Action M.Host A) (config : Config)
      (body : A → Action K.State (Unit {0})) (a : A) (host : M.Host) (p : Prepared C F K M)
      (r : Result Error (Unit {0})) (w' : World K.State)
      → ((w : World M.Host) → arguments w ≡ (ok a, w))
      → run C F K M arguments config (λ a _. body a) host ≡ ran p r w'
      → body a (record { state = p.client; out = [] }) ≡ (r, w')
  run-accepted arguments config body a host p r w' accepted h =
      let start : World M.Host = record { state = host; out = [] } in
      let (b, w, read, done) = run-ran arguments config (λ a _. body a) host p r w' h in
      ground (arith, accepted start)

  -- A program that has come to have a client has prepared it.
  pub run-prepared :
      {A : Type 0} (arguments : Action M.Host A) (config : Config)
      (body : A → Prepared C F K M → Action K.State (Unit {0})) (host : M.Host)
      (p : Prepared C F K M) (r : Result Error (Unit {0})) (w' : World K.State)
      → run C F K M arguments config body host ≡ ran p r w'
      → (a : A) × (w : World M.Host) × (v : World M.Host) × (arguments
            (record { state = host; out = [] })
          ≡ (ok a, w))
        × (prepare C F K M config w ≡ (ok p, v))
  unfolding run
  run-prepared arguments config body host p r w' h =
      let read = arguments (record { state = host; out = [] }) in
      elim (Result-cases read.0) [
        | inl (a, ea) ↦
            let made = prepare C F K M config read.1 in
            elim (Result-cases made.0) [
              | inl (q, eq) ↦ (a, read.1, made.1, (λ i. (ea i, read.1)), ground arith)
              | inr (x, eq) ↦ absurd (ground arith)
            ]
        | inr (x, ea) ↦ absurd (ground arith)
      ]
