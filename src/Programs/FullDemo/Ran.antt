-- ===== src/Programs/FullDemo/Ran.antt =====
-- What the program did to its client, once it had one.
use brale_miden_demo.Base.{
  [], ◌∷◌, ◌++◌, List, ◌≡◌, Result, ok, inl, inr, Result-cases, if◌then◌else◌, arith,
}
use brale_miden_demo.Text.{Str, text}
use brale_miden_demo.Crypto.{Crypto}
use brale_miden_demo.Client
use brale_miden_demo.Client.{Client, Error}
use brale_miden_demo.Config.{Env, from_env}
use brale_miden_demo.Keystore.{FilesystemKeyStore}
use brale_miden_demo.Operations.Monad.{World}
use brale_miden_demo.Programs.Setup.{Machine}
use brale_miden_demo.Programs.FullDemo.{has_arg, TempDir, Setup, set_up, finished, full_demo, demo}

module _ (C : Crypto) (F : FilesystemKeyStore C) (K : Client C) (M : Machine C F K) where
  pub full_demo-set_up :
      (tempdir : TempDir C F K M) (env : Env) (args : List Str) (host : M.Host)
      (setup : Setup C F K M) (r : Result Error (K.AccountId × K.AccountId × K.AccountId))
      (w' : World K.State)
      → full_demo C F K M tempdir env args host ≡ finished setup r w'
      → (v : World M.Host) × (v' : World M.Host) × (set_up C F K M tempdir (from_env env) v
          ≡ (ok setup, v'))
  unfolding full_demo
  full_demo-set_up tempdir env args host setup r w' h =
      let private' = has_arg (text "--private") args in
      let line =
        text "Wallet storage mode: " ++ (if private' then text "Private" else text "Public") in
      let start : World M.Host = record { state = host; out = line ∷ [] } in
      let made = set_up C F K M tempdir (from_env env) start in
      elim (Result-cases made.0) [
        | inl (s, es) ↦ (start, made.1, ground arith)
        | inr (x, ex) ↦ absurd (ground arith)
      ]

  pub full_demo-ran :
      (tempdir : TempDir C F K M) (env : Env) (args : List Str) (host : M.Host)
      (setup : Setup C F K M) (r : Result Error (K.AccountId × K.AccountId × K.AccountId))
      (w' : World K.State)
      → full_demo C F K M tempdir env args host ≡ finished setup r w'
      → (mode : Client.AccountStorageMode) × (w : World K.State) × (w.state ≡ setup.3)
        × (demo C K setup.0 setup.1 setup.2 mode w ≡ (r, w'))
  unfolding full_demo
  full_demo-ran tempdir env args host setup r w' h =
      let private' = has_arg (text "--private") args in
      let mode =
        if private' then Client.AccountStorageMode.private else Client.AccountStorageMode.public in
      let line =
        text "Wallet storage mode: " ++ (if private' then text "Private" else text "Public") in
      let start : World M.Host = record { state = host; out = line ∷ [] } in
      let made = set_up C F K M tempdir (from_env env) start in
      elim (Result-cases made.0) [
        | inl (s, es) ↦
            let same : s ≡ setup = ground arith in
            (mode, record { state = s.3; out = made.1.out }, (λ i. (same i).3), ground arith)
        | inr (x, ex) ↦ absurd (ground arith)
      ]
