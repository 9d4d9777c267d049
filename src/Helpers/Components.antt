-- ===== src/Helpers/Components.antt =====
-- `AccountCreationConfig` and `account_component_from_package`.
pub mod Laws
use brale_miden_demo.Base.{
  Bool, true, false, List, [], ◌∷◌, ◌||◌, Option, none, some, if◌then◌else◌, ◌==◌,
}
use brale_miden_demo.Text.{text}
use brale_miden_demo.Crypto.{Crypto, Bytes}
use brale_miden_demo.Client
use brale_miden_demo.Client.{
  Client, AccountType, AccountStorageMode, regular_account_immutable_code, fungible_faucet,
}
use brale_miden_demo.Keystore.{FilesystemKeyStore}
use brale_miden_demo.Effects.{Run, ◌>>=◌, pure, bail, context, value}
use brale_miden_demo.Helpers.Toolchain.{Toolchain}

-- Equality of account types.
abbrev pub same_type : AccountType → AccountType → Bool
same_type regular_account_immutable_code regular_account_immutable_code = true
same_type fungible_faucet fungible_faucet = true
same_type (AccountType.other a) (AccountType.other b) = a == b
same_type _ _ = false

-- `BTreeSet::from_iter`, as the test of membership.
abbrev pub type_set : List AccountType → AccountType → Bool
type_set [] t = false
type_set (u ∷ types) t = same_type u t || type_set types t

module _ (C : Crypto) (F : FilesystemKeyStore C) (K : Client C) (T : Toolchain C F K) where
  pub record AccountCreationConfig : Type 0 where
    pub account_type : AccountType
    pub storage_mode : AccountStorageMode
    pub storage_slots : List T.StorageSlot
    pub supported_types : Option (List AccountType)

  -- `Default for AccountCreationConfig`
  unfoldable pub default_account_config : AccountCreationConfig
  default_account_config = record {
    account_type = regular_account_immutable_code;
    storage_mode = Client.AccountStorageMode.public;
    storage_slots = [];
    supported_types = none;
  }

  -- The data of the first metadata section.
  unfoldable pub find_metadata : List (T.SectionId × Bytes) → Option Bytes
  find_metadata [] = none
  find_metadata ((id, data') ∷ sections) =
      if T.section_eq id T.account_component_metadata then some data' else find_metadata sections

  unfoldable pub supported : Option (List AccountType) → AccountType → Bool
  supported (some types) = type_set types
  supported none = type_set (regular_account_immutable_code ∷ [])

  unfoldable pub account_component_from_package :
      {S : Type 0} → T.Package → AccountCreationConfig → Run S T.AccountComponent
  account_component_from_package package' config = elim (find_metadata (T.sections package')) [
    | none ↦ bail (text "Package missing account component metadata")
    | some bytes ↦ do
      metadata ←
          context (text "Failed to deserialize account component metadata")
            (T.metadata_from_bytes bytes)
      library ← value (T.unwrap_library package')
      component ←
          context (text "Failed to create account component")
            (T.new_component library config.storage_slots)
      let component = T.with_metadata component metadata
      pure (T.with_supported_types component (supported config.supported_types))
  ]
