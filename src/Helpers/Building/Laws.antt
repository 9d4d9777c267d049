-- ===== src/Helpers/Building/Laws.antt =====
-- When a project is built.
use brale_miden_demo.Base.{
  Bool, List, [], ◌∷◌, ◌++◌, ◌==◌, if◌then◌else◌, ap, subst, ◌≡◌, ◌⊎◌, refl, some, Option, inl, inr,
  Result, ok, err, Result-cases, Panics, returned, panicked, arith,
}
use brale_miden_demo.Text.{Str, text}
use brale_miden_demo.Crypto.{Crypto, Bytes}
use brale_miden_demo.Client.{Client, Error}
use brale_miden_demo.Keystore.{FilesystemKeyStore}
use brale_miden_demo.Helpers.Toolchain.{Toolchain, CommandOutput, build_command_output, masm}
use brale_miden_demo.Helpers.Building.{join_path, build_args, artifact_of, build_project_in_dir}

-- What stands between a directory and a name in it.
abbrev pub slash : Str → Str
slash [] = []
slash (c ∷ []) = if c == b'/' then [] else b'/' ∷ []
slash (c ∷ d ∷ dir) = slash (d ∷ dir)

join_path-slash : (dir name : Str) → join_path dir name ≡ dir ++ (slash dir ++ name)
unfolding join_path
join_path-slash [] name = refl
join_path-slash (c ∷ []) name = ground arith
join_path-slash (c ∷ d ∷ dir) name = ap (λ l. c ∷ l) (join_path-slash (d ∷ dir) name)

module _ (C : Crypto) (F : FilesystemKeyStore C) (K : Client C) (T : Toolchain C F K) where
  -- The build reported the path of an artifact.
  abbrev pub Reported : Result Error (Option CommandOutput) → Str → Type 0
  Reported output path = output ≡ ok (some (build_command_output (masm path)))

  -- The build of a directory in a profile, as a command line.
  abbrev pub command : Str → Bool → List Str
  command dir release =
      text "cargo"
      ∷ text "miden"
      ∷ text "build"
      ∷ (if release then text "--release" else text "--debug")
      ∷ text "--manifest-path"
      ∷ (dir ++ (slash dir ++ text "Cargo.toml"))
      ∷ []

  build_args-command :
      (dir : Str) (release : Bool) → build_args C F K T dir release ≡ command dir release
  unfolding build_args
  build_args-command dir release =
      ap
        (λ path.
          text "cargo"
          ∷ text "miden"
          ∷ text "build"
          ∷ (if release then text "--release" else text "--debug")
          ∷ text "--manifest-path"
          ∷ path
          ∷ [])
        (join_path-slash dir (text "Cargo.toml"))

  -- A package that was read from the artifact; or a failure of the build, after which no file was read,
  -- or of reading the artifact.
  abbrev pub BuildOutcome : List Str → T.Host → Panics (Result Error T.Package) → T.Host → Type 0
  BuildOutcome args h (returned (ok made)) h' =
      let (output, h1) = T.run args h in
      (path : Str) × (bytes : Bytes) × Reported output path
      × (T.read path h1 ≡ (ok bytes, h'))
      × (T.package_from_bytes bytes ≡ ok made)
  BuildOutcome args h (returned (err e)) h' =
      let (output, h1) = T.run args h in
      ((path : Str) × Reported output path × (h' ≡ (T.read path h1).1)) ⊎ (h' ≡ h1)
  BuildOutcome args h panicked h' = ⊥

  -- Building a project never panics. It runs `cargo miden build` with the flag of the profile and the
  -- manifest in that directory. A package that it returns was parsed from the bytes of the artifact that
  -- this build reported; where it fails, the machine is as the build left it, or as reading a reported
  -- artifact after it did.
  pub build_project_in_dir-BuildOutcome :
      (dir : Str) (release : Bool) (h : T.Host) (r : Panics (Result Error T.Package)) (h' : T.Host)
      → build_project_in_dir C F K T dir release h ≡ (r, h')
      → BuildOutcome (command dir release) h r h'
  unfolding build_project_in_dir artifact_of
  build_project_in_dir-BuildOutcome dir release h r h' e =
      subst (λ args. BuildOutcome args h r h') (build_args-command dir release)
        (by_output (T.run (build_args C F K T dir release) h).0 refl r e)
    where
      by_output :
          (output : Result Error (Option CommandOutput))
          → (T.run (build_args C F K T dir release) h).0 ≡ output
          → (r : Panics (Result Error T.Package))
          → build_project_in_dir C F K T dir release h ≡ (r, h')
          → BuildOutcome (build_args C F K T dir release) h r h'
      by_output (ok (some (build_command_output (masm path)))) eo (returned (ok made)) e =
          let (output, h1) = T.run (build_args C F K T dir release) h in
          elim (Result-cases (T.read path h1).0) [
            | inl (bytes, er) ↦ (path, bytes, eo, ground arith, ground arith)
            | inr (x, er) ↦ absurd (ground arith)
          ]
      by_output (ok (some (build_command_output (masm path)))) eo (returned (err y)) e =
          inl (path, eo, ground arith)
      by_output output eo (returned (ok made)) e = absurd (ground arith)
      by_output output eo (returned (err y)) e = inr (ground arith)
      by_output output eo panicked e = absurd (ground arith)
