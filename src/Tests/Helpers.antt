-- ===== src/Tests/Helpers.antt =====
-- The helpers at concrete inputs.
use brale_miden_demo.Base.{
  Bool, ℕ, true, ◌+◌, ◌++◌, if◌then◌else◌, ◌≡◌, refl, [], ◌∷◌, some, none, ok, err, returned,
  panicked, length, ◌==◌,
}
use brale_miden_demo.Text.{text}
use brale_miden_demo.Crypto.{Bytes}
use brale_miden_demo.Client.{AccountType, regular_account_immutable_code}
use brale_miden_demo.Helpers.Toolchain.{Toolchain, build_command_output, masm}
use brale_miden_demo.Helpers.Building.{
  join_path, build_args, artifact_of, build_project_in_dir, setup_client,
}
use brale_miden_demo.Helpers.Building.Laws.{
  command, BuildOutcome, build_project_in_dir-BuildOutcome,
}
use brale_miden_demo.Helpers.Components.{
  AccountCreationConfig, default_account_config, find_metadata, supported,
  account_component_from_package,
}
use brale_miden_demo.Helpers.Components.Laws.{
  IsSupport, FirstMetadata, account_component_from_package-FirstMetadata,
}
use brale_miden_demo.Helpers.Accounts.{
  Session, create_account_from_package, create_testing_account_from_package,
  create_basic_wallet_account,
}
use brale_miden_demo.Helpers.Accounts.Outcomes.{
  WalletOutcome, create_basic_wallet_account-WalletOutcome,
}
use brale_miden_demo.Helpers.Notes.{
  default_note_config, create_note_from_package, create_testing_note_from_package,
}
use brale_miden_demo.Helpers.Notes.Laws.{create_testing_note-create_note}
use brale_miden_demo.Tests.Doubles.{Account, crypto, one_key, client}
use brale_miden_demo.Tests.Machines.{new_store}

-- A package is its library's number, with one other section before the metadata; the key store refuses
-- a second key.
abbrev toolchain : Toolchain crypto one_key client
toolchain = record {
  Host = ℕ;
  Endpoint = Unit {0};
  Package = ℕ;
  SectionId = ℕ;
  Metadata = Bytes;
  Library = ℕ;
  Program = ℕ;
  StorageSlot = ℕ;
  AccountComponent = ℕ × Bytes;
  FalconKey = ℕ;
  NoteTag = ℕ;
  NoteAssets = ℕ;
  NoteInputs = ℕ;
  NoteScript = ℕ;
  NoteRecipient = ℕ;
  NoteMetadata = ℕ;
  testnet = tt;
  open_keystore = λ path h. (ok none, h);
  build_client = λ endpoint timeout path keystore debug h. (ok new_store, h);
  run = λ args h. (ok (some (build_command_output (masm (text "a.masp")))), h + length args);
  read = λ path h. (ok (length path ∷ []), h + 100);
  package_from_bytes = λ bytes. ok (length bytes);
  sections = λ p. (0, []) ∷ (1, p ∷ []) ∷ (1, []) ∷ [];
  account_component_metadata = 1;
  section_eq = ◌==◌;
  metadata_from_bytes = λ bytes. ok bytes;
  unwrap_library = λ p. if p == 9 then panicked else returned p;
  unwrap_program = λ p. if p == 9 then returned p else panicked;
  new_component = λ library slots. ok (library, []);
  with_metadata = λ c metadata. (c.0, metadata);
  with_supported_types =
      λ c types. if types regular_account_immutable_code then c else (c.0 + 1, c.1);
  build = λ builder. ok (3, 0, 0, 0);
  build_existing = λ builder. ok (4, 0, 0, 0);
  debug_account = λ id. id ∷ [];
  falcon_key = λ s. (5, s);
  falcon_commitment = λ key. key + 100;
  add_falcon_key = λ store key. elim store [
    | none ↦ (ok tt, some key)
    | some k ↦ (err (text "full" ∷ []), some k)
  ];
  draw_word = λ s. (0, s);
  word_of = λ (a, b, c, d). ok a;
  note_tag = λ n. n;
  no_assets = 0;
  note_script = λ program. program;
  note_inputs = λ inputs. ok (length inputs);
  note_recipient = λ serial script inputs. serial + script + inputs;
  note_metadata = λ sender type tag. sender;
  new_note = λ assets metadata recipient. recipient;
}

abbrev config : AccountCreationConfig crypto one_key client toolchain
config = default_account_config crypto one_key client toolchain

account_component_from_package-FirstMetadata_example :
    (bytes : Bytes) × (metadata : Bytes) × (library : ℕ) × (base : ℕ × Bytes) × (types : AccountType
      → Bool)
    × FirstMetadata crypto one_key client toolchain (toolchain.sections 7) bytes
    × (toolchain.metadata_from_bytes bytes ≡ ok metadata)
    × (toolchain.unwrap_library 7 ≡ returned library)
    × (toolchain.new_component library config.storage_slots ≡ ok base)
    × (◌≡◌ {A = ℕ × Bytes}
        (7, 7 ∷ [])
        (toolchain.with_supported_types (toolchain.with_metadata base metadata) types))
    × IsSupport crypto one_key client toolchain config.supported_types types
    × (◌≡◌ {A = Unit {0}} tt tt)
unfolding account_component_from_package find_metadata supported default_account_config
account_component_from_package-FirstMetadata_example =
    account_component_from_package-FirstMetadata crypto one_key client toolchain 7 config
      (7, 7 ∷ []) tt tt refl

abbrev first_session : Session crypto one_key client toolchain
first_session = record { client = new_store; keystore = none }

abbrev wallet : Account
wallet = (3, 0, 0, 0)

abbrev last_session : Session crypto one_key client toolchain
last_session = record { client = record { syncs = 0; account = some wallet }; keystore = some 5 }

create_basic_wallet_account-WalletOutcome_example :
    WalletOutcome crypto one_key client toolchain config first_session
      (returned (ok wallet))
      last_session
unfolding create_basic_wallet_account
create_basic_wallet_account-WalletOutcome_example =
    create_basic_wallet_account-WalletOutcome crypto one_key client toolchain config first_session
      (returned (ok wallet)) last_session refl

-- The wallet stays in the client when the key store refuses its key.
wallet_without_key :
    create_basic_wallet_account crypto one_key client toolchain config last_session
    ≡ (returned (err (text "Failed to add key to keystore" ∷ text "full" ∷ [])), last_session)
unfolding create_basic_wallet_account default_account_config
wallet_without_key = refl

create_testing_note-create_note_example :
    create_testing_note_from_package crypto one_key client toolchain 9 3
      (default_note_config crypto one_key client toolchain)
      tt
    ≡ (
      (create_note_from_package crypto one_key client toolchain 9 3
          (default_note_config crypto one_key client toolchain)
          new_store).0,
      tt,
    )
create_testing_note-create_note_example =
    create_testing_note-create_note crypto one_key client toolchain 9 3
      (default_note_config crypto one_key client toolchain) tt new_store refl

note_run :
    create_note_from_package crypto one_key client toolchain 9 3
      (default_note_config crypto one_key client toolchain)
      new_store
    ≡ (returned (ok 9), new_store)
unfolding create_note_from_package default_note_config
note_run = refl

build_project_in_dir-BuildOutcome_example :
    BuildOutcome crypto one_key client toolchain
      (command crypto one_key client toolchain (text "contracts/") true)
      0
      (returned (ok 1))
      106
unfolding build_project_in_dir artifact_of build_args
build_project_in_dir-BuildOutcome_example =
    build_project_in_dir-BuildOutcome crypto one_key client toolchain (text "contracts/") true 0
      (returned (ok 1)) 106 refl

join_run :
    join_path (text "contracts/") (text "Cargo.toml")
    ≡ join_path (text "contracts") (text "Cargo.toml")
unfolding join_path
join_run = refl

create_account_run :
    create_account_from_package crypto one_key client toolchain 7 config
      (record { state = new_store; out = [] })
    ≡ (
      returned (ok wallet),
      record {
        state = record { syncs = 0; account = some wallet };
        out = (text "Account ID: " ++ (3 ∷ [])) ∷ [];
      },
    )
unfolding create_account_from_package account_component_from_package find_metadata supported
    default_account_config
create_account_run = refl

testing_account_panics :
    create_testing_account_from_package crypto one_key client toolchain 9 config tt ≡ (panicked, tt)
unfolding create_testing_account_from_package account_component_from_package find_metadata
testing_account_panics = refl

setup_client_run :
    setup_client crypto one_key client toolchain 0
    ≡ (returned (ok (record { client = new_store; keystore = none })), 0)
unfolding setup_client
setup_client_run = refl
