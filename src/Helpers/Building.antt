-- ===== src/Helpers/Building.antt =====
-- `setup_client` and `build_project_in_dir`.
pub mod Laws
use brale_miden_demo.Base.{Bool, true, [], ◌∷◌, ◌++◌, List, Option, none, some, if◌then◌else◌, ◌==◌}
use brale_miden_demo.Text.{Str, text}
use brale_miden_demo.Crypto.{Crypto}
use brale_miden_demo.Client.{Client}
use brale_miden_demo.Keystore.{FilesystemKeyStore}
use brale_miden_demo.Effects.{Run, ◌>>=◌, pure, bail, context, call}
use brale_miden_demo.Helpers.Toolchain
use brale_miden_demo.Helpers.Toolchain.{
  Toolchain, CommandOutput, BuildOutput, build_command_output, masm,
}

-- `Path::join` on Unix, of a relative name.
unfoldable pub join_path : Str → Str → Str
join_path [] name = name
join_path (c ∷ []) name = if c == b'/' then c ∷ name else c ∷ b'/' ∷ name
join_path (c ∷ d ∷ dir) name = c ∷ join_path (d ∷ dir) name

module _ (C : Crypto) (F : FilesystemKeyStore C) (K : Client C) (T : Toolchain C F K) where
  pub record ClientSetup : Type 0 where
    pub client : K.State
    pub keystore : F.Store

  unfoldable pub setup_client : Run T.Host ClientSetup
  setup_client = do
    keystore ← call (text "Failed to initialize keystore") (T.open_keystore (text "../keystore"))
    client ←
        call (text "Failed to build Miden client")
          (T.build_client T.testnet 10000 (text "../store.sqlite3") keystore true)
    pure (record { client = client; keystore = keystore })

  -- The arguments of the build.
  unfoldable pub build_args : Str → Bool → List Str
  unfolding join_path
  build_args dir release =
      text "cargo"
      ∷ text "miden"
      ∷ text "build"
      ∷ (if release then text "--release" else text "--debug")
      ∷ text "--manifest-path"
      ∷ join_path dir (text "Cargo.toml")
      ∷ []

  -- The path of the artifact, from what the build returned.
  unfoldable pub artifact_of : Option CommandOutput → Run T.Host Str
  artifact_of none = bail (text "Cargo miden build returned None")
  artifact_of (some (build_command_output (masm artifact_path))) = pure artifact_path
  artifact_of (some (build_command_output (BuildOutput.other debug))) =
      bail (text "Expected Masm output, got " ++ debug)
  artifact_of (some (CommandOutput.other debug)) =
      bail (text "Expected BuildCommandOutput, got " ++ debug)

  unfoldable pub build_project_in_dir : Str → Bool → Run T.Host T.Package
  unfolding build_args artifact_of
  build_project_in_dir dir release = do
    output ← call (text "Failed to compile project") (T.run (build_args dir release))
    artifact_path ← artifact_of output
    package_bytes ←
        call (text "Failed to read compiled package from " ++ artifact_path) (T.read artifact_path)
    context (text "Failed to deserialize package from bytes") (T.package_from_bytes package_bytes)
