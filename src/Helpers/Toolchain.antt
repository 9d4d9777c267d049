-- ===== src/Helpers/Toolchain.antt =====
-- What the helpers call in cargo_miden, miden_mast_package and the account and note types of
-- miden_client, beside the client itself.
use brale_miden_demo.Base.{ℕ, Bool, List, Option, Result, Panics}
use brale_miden_demo.Text.{Str}
use brale_miden_demo.Crypto.{Crypto, Bytes}
use brale_miden_demo.Client.{Client, Error, AccountType, AccountStorageMode, NoteType}
use brale_miden_demo.Keystore.{FilesystemKeyStore}

-- cargo_miden's `BuildOutput` and `CommandOutput`; of the other variants only `{:?}` is read.
pub data BuildOutput : Type 0 where
  masm : Str → BuildOutput
  other : Str → BuildOutput

pub data CommandOutput : Type 0 where
  build_command_output : BuildOutput → CommandOutput
  other : Str → CommandOutput

-- `NoAuth` and `AuthFalcon512Rpo`.
pub data AuthComponent (Commitment : Type 0) : Type 0 where
  no_auth : AuthComponent Commitment
  auth_falcon512_rpo : Commitment → AuthComponent Commitment

pub data WalletComponent (Component : Type 0) : Type 0 where
  basic_wallet : WalletComponent Component
  component : Component → WalletComponent Component

-- What a chain of `AccountBuilder` calls is given.
pub record Builder (Commitment Component : Type 0) : Type 0 where
  pub init_seed : Bytes
  pub account_type : AccountType
  pub storage_mode : AccountStorageMode
  pub component : WalletComponent Component
  pub auth_component : AuthComponent Commitment

pub record Toolchain (C : Crypto) (F : FilesystemKeyStore C) (K : Client C) : Type 1 where
  -- The machine: its file system, its network and the programs that run on it.
  pub Host : Type 0
  pub Endpoint : Type 0
  pub Package : Type 0
  pub SectionId : Type 0
  pub Metadata : Type 0
  pub Library : Type 0
  pub Program : Type 0
  pub StorageSlot : Type 0
  pub AccountComponent : Type 0
  pub FalconKey : Type 0
  pub NoteTag : Type 0
  pub NoteAssets : Type 0
  pub NoteInputs : Type 0
  pub NoteScript : Type 0
  pub NoteRecipient : Type 0
  pub NoteMetadata : Type 0
  -- `Endpoint::testnet`
  pub testnet : Endpoint
  pub open_keystore : Str → Host → Result Error F.Store × Host
  -- `ClientBuilder`: endpoint, timeout in milliseconds, path of the store, authenticator, debug mode.
  pub build_client : Endpoint → ℕ → Str → F.Store → Bool → Host → Result Error K.State × Host
  -- `cargo_miden::run` with `OutputType::Masm`, and `std::fs::read`.
  pub run : List Str → Host → Result Error (Option CommandOutput) × Host
  pub read : Str → Host → Result Error Bytes × Host
  pub package_from_bytes : Bytes → Result Error Package
  pub sections : Package → List (SectionId × Bytes)
  pub account_component_metadata : SectionId
  pub section_eq : SectionId → SectionId → Bool
  pub metadata_from_bytes : Bytes → Result Error Metadata
  -- `unwrap_library` and `unwrap_program` panic on a package of the other kind.
  pub unwrap_library : Package → Panics Library
  pub unwrap_program : Package → Panics Program
  pub new_component : Library → List StorageSlot → Result Error AccountComponent
  pub with_metadata : AccountComponent → Metadata → AccountComponent
  -- The set of types by its members.
  pub with_supported_types : AccountComponent → (AccountType → Bool) → AccountComponent
  pub build : Builder C.PublicKeyCommitment AccountComponent → Result Error K.Account
  pub build_existing : Builder C.PublicKeyCommitment AccountComponent → Result Error K.Account
  -- `{:?}` of an id.
  pub debug_account : K.AccountId → Str
  -- `rpo_falcon512::SecretKey::with_rng`, and the commitment of its public key.
  pub falcon_key : K.State → FalconKey × K.State
  pub falcon_commitment : FalconKey → C.PublicKeyCommitment
  pub add_falcon_key : F.Store → FalconKey → Result Error (Unit {0}) × F.Store
  -- `client.rng().draw_word()`
  pub draw_word : K.State → C.Word × K.State
  -- `Word::try_from` of four `u64`.
  pub word_of : ℕ × ℕ × ℕ × ℕ → Result Error C.Word
  pub note_tag : ℕ → NoteTag
  pub no_assets : NoteAssets
  -- `NoteScript::from_parts` of a program's forest and entry point.
  pub note_script : Program → NoteScript
  pub note_inputs : List K.Felt → Result Error NoteInputs
  pub note_recipient : C.Word → NoteScript → NoteInputs → NoteRecipient
  pub note_metadata : K.AccountId → NoteType → NoteTag → NoteMetadata
  pub new_note : NoteAssets → NoteMetadata → NoteRecipient → K.Note
