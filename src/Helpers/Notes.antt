-- ===== src/Helpers/Notes.antt =====
-- `NoteCreationConfig`, `create_note_from_package` and `create_testing_note_from_package`.
pub mod Laws
use brale_miden_demo.Base.{List, []}
use brale_miden_demo.Text.{text}
use brale_miden_demo.Crypto.{Crypto}
use brale_miden_demo.Client
use brale_miden_demo.Client.{Client, NoteType}
use brale_miden_demo.Keystore.{FilesystemKeyStore}
use brale_miden_demo.Effects.{Run, ◌>>=◌, pure, context, draw, value}
use brale_miden_demo.Helpers.Toolchain.{Toolchain}

module _ (C : Crypto) (F : FilesystemKeyStore C) (K : Client C) (T : Toolchain C F K) where
  pub record NoteCreationConfig : Type 0 where
    pub note_type : NoteType
    pub tag : T.NoteTag
    pub assets : T.NoteAssets
    pub inputs : List K.Felt

  -- `Default for NoteCreationConfig`
  unfoldable pub default_note_config : NoteCreationConfig
  default_note_config = record {
    note_type = Client.NoteType.public;
    tag = T.note_tag 0;
    assets = T.no_assets;
    inputs = [];
  }

  unfoldable pub create_note_from_package :
      T.Package → K.AccountId → NoteCreationConfig → Run K.State K.Note
  create_note_from_package package' sender_id config = do
    note_program ← value (T.unwrap_program package')
    let note_script = T.note_script note_program
    serial_num ← draw T.draw_word
    note_inputs ← context (text "Failed to create note inputs") (T.note_inputs config.inputs)
    let recipient = T.note_recipient serial_num note_script note_inputs
    let metadata = T.note_metadata sender_id config.note_type config.tag
    pure (T.new_note config.assets metadata recipient)

  unfoldable pub create_testing_note_from_package :
      {S : Type 0} → T.Package → K.AccountId → NoteCreationConfig → Run S K.Note
  create_testing_note_from_package package' sender_id config = do
    note_program ← value (T.unwrap_program package')
    let note_script = T.note_script note_program
    serial_num ← context (text "Failed to convert random u64s to word") (T.word_of (0, 0, 0, 0))
    note_inputs ← context (text "Failed to create note inputs") (T.note_inputs config.inputs)
    let recipient = T.note_recipient serial_num note_script note_inputs
    let metadata = T.note_metadata sender_id config.note_type config.tag
    pure (T.new_note config.assets metadata recipient)
