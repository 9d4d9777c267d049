-- ===== src/Programs/Accounts/Created.antt =====
-- The account that `create_account` leaves, and who signs for it.
use brale_miden_demo.Base.{[], ◌∷◌, ◌++◌, ◌≡◌, Result, ok, returned}
use brale_miden_demo.Text.{text}
use brale_miden_demo.Crypto
use brale_miden_demo.Crypto.{Crypto}
use brale_miden_demo.Client
use brale_miden_demo.Client.{Client, Error}
use brale_miden_demo.Keystore.{FilesystemKeyStore, get_signature}
use brale_miden_demo.Keystore.Laws.{digest_of}
use brale_miden_demo.MockSigner.{key_commitment}
use brale_miden_demo.Operations.Monad.{World}
use brale_miden_demo.Operations.Links.{account_link}
use brale_miden_demo.Programs.Setup.{Machine, Prepared}
use brale_miden_demo.Programs.FullDemo.Creating.{MadeOf}

module _ (C : Crypto) (F : FilesystemKeyStore C) (K : Client C) (M : Machine C F K) where
  -- The key store signs with a key whatever it is asked to sign for an account of the key.
  abbrev pub Signs : Prepared C F K M → C.SecretKey → Type 0
  Signs p secret =
      (inputs : C.SigningInputs)
      → get_signature C F p.keystore (key_commitment C secret) inputs
        ≡ returned (ok (C.ecdsa_signature (C.sign_digest secret (digest_of C F inputs))))

  -- A program ended without an error and left a wallet of a key with which its key store signs, tracked,
  -- and printed where it is found and which it is.
  abbrev pub Opened :
      C.SecretKey → Prepared C F K M → Result Error (Unit {0}) → World K.State → Type 0
  Opened secret p r w' =
      (account : K.Account) × (r ≡ ok tt)
      × MadeOf C K (C.public_key secret) account w'.state
      × Signs p secret
      × (w'.out
          ≡ account_link C K (K.account_id account)
            ∷ (text "Wallet account created: " ++ K.display_account (K.account_id account))
            ∷ [])
