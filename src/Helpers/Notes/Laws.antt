-- ===== src/Helpers/Notes/Laws.antt =====
-- How the two functions agree.
use brale_miden_demo.Base.{◌≡◌, ok, arith}
use brale_miden_demo.Crypto.{Crypto}
use brale_miden_demo.Client.{Client}
use brale_miden_demo.Keystore.{FilesystemKeyStore}
use brale_miden_demo.Helpers.Toolchain.{Toolchain}
use brale_miden_demo.Helpers.Notes.{
  NoteCreationConfig, create_note_from_package, create_testing_note_from_package,
}

module _ (C : Crypto) (F : FilesystemKeyStore C) (K : Client C) (T : Toolchain C F K) where
  -- The testing function gives the result, panics and errors included, that the other one gives with a
  -- client that draws the word of four zeros, and it leaves its state unchanged.
  pub create_testing_note-create_note :
      {S : Type 0} (package' : T.Package) (sender : K.AccountId)
      (config : NoteCreationConfig C F K T) (s : S) (c : K.State)
      → T.word_of (0, 0, 0, 0) ≡ ok (T.draw_word c).0
      → create_testing_note_from_package C F K T package' sender config s
        ≡ ((create_note_from_package C F K T package' sender config c).0, s)
  unfolding create_note_from_package create_testing_note_from_package
  create_testing_note-create_note package' sender config s c drawn = ground arith
