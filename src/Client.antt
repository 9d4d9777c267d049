-- ===== src/Client.antt =====
-- What the operations call in miden_client, miden_protocol and miden_standards and do not implement.
-- Every definition that uses the client takes it as a parameter.
use brale_miden_demo.Base.{ℕ, Bool, List, Option, Result}
use brale_miden_demo.Text.{Str}
use brale_miden_demo.Crypto.{Crypto, Bytes}

-- An `anyhow::Error` as its chain of messages, the outermost context first.
abbrev pub Error : Type 0
Error = List Str

-- The account types and storage modes that the sources name; a caller may pass another type.
pub data AccountType : Type 0 where
  regular_account_immutable_code fungible_faucet : AccountType
  other : ℕ → AccountType

pub data AccountStorageMode : Type 0 where
  public private : AccountStorageMode

pub data NoteType : Type 0 where
  public private : NoteType

-- `BasicWallet`, or a faucet component.
pub data Component (Faucet : Type 0) : Type 0 where
  basic_wallet : Component Faucet
  basic_fungible_faucet : Faucet → Component Faucet

-- What a chain of `AccountBuilder` calls is given; its authentication is `AuthEcdsaK256Keccak` with
-- the commitment.
pub record AccountBuilder (Commitment Faucet : Type 0) : Type 0 where
  pub init_seed : Bytes
  pub account_type : AccountType
  pub storage_mode : AccountStorageMode
  pub component : Component Faucet
  pub auth_component : Commitment

-- `AccountRecordData`; a partial record holds nothing that the sources read.
pub data AccountRecordData (Account : Type 0) : Type 0 where
  full : Account → AccountRecordData Account
  partial : AccountRecordData Account

-- A client with its store and the network behind it. A method on `&mut Client` returns the state that
-- it leaves, also where it fails; one on `&Client` only reads it.
pub record Client (C : Crypto) : Type 1 where
  pub State : Type 0
  pub AccountId : Type 0
  pub Account : Type 0
  pub AccountRecord : Type 0
  pub FungibleAsset : Type 0
  pub TokenSymbol : Type 0
  pub FaucetComponent : Type 0
  pub Felt : Type 0
  pub SlotName : Type 0
  pub Note : Type 0
  pub NoteAttachment : Type 0
  pub InputNoteRecord : Type 0
  pub NoteRelevance : Type 0
  pub TransactionRequest : Type 0
  pub TransactionId : Type 0
  pub SyncSummary : Type 0
  pub display_account : AccountId → Str
  pub display_transaction : TransactionId → Str
  -- `client.rng().fill_bytes` on 32 bytes.
  pub fill_bytes : State → Bytes × State
  pub build_account : AccountBuilder C.PublicKeyCommitment FaucetComponent → Result Error Account
  pub account_id : Account → AccountId
  -- `add_account(account, overwrite)`
  pub add_account : Account → Bool → State → Result Error (Unit {0}) × State
  pub token_symbol : Str → Result Error TokenSymbol
  pub token_symbol_of : Felt → Result Error TokenSymbol
  pub felt : ℕ → Felt
  pub as_int : Felt → ℕ
  pub faucet_component : TokenSymbol → ℕ → Felt → Result Error FaucetComponent
  pub fungible_asset : AccountId → ℕ → Result Error FungibleAsset
  -- The request builders draw from `client.rng()`.
  pub build_mint_fungible_asset :
      FungibleAsset → AccountId → NoteType → State → Result Error TransactionRequest × State
  pub build_pay_to_id :
      List FungibleAsset
      → AccountId
      → AccountId
      → NoteType
      → State
      → Result Error TransactionRequest × State
  pub default_attachment : NoteAttachment
  pub create_burn_note :
      AccountId → AccountId → FungibleAsset → NoteAttachment → State → Result Error Note × State
  pub build_own_output_notes : List Note → Result Error TransactionRequest
  pub build_consume_notes : List Note → Result Error TransactionRequest
  pub submit_new_transaction :
      AccountId → TransactionRequest → State → Result Error TransactionId × State
  pub sync_state : State → Result Error SyncSummary × State
  pub get_consumable_notes :
      Option AccountId → State → Result Error (List (InputNoteRecord × NoteRelevance))
  -- `try_into().ok()` of a record.
  pub to_note : InputNoteRecord → Option Note
  -- `tokio::time::sleep` of that many seconds, while the network goes on.
  pub sleep : ℕ → State → State
  pub get_account : AccountId → State → Result Error (Option AccountRecord)
  pub account_data : AccountRecord → AccountRecordData Account
  pub get_balance : Account → AccountId → Result Error ℕ
  -- A storage item is a word of four field elements.
  pub get_item : Account → SlotName → Result Error (Felt × Felt × Felt × Felt)
  pub faucet_sysdata_slot : SlotName
  pub metadata_slot : SlotName
