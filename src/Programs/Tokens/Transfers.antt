-- ===== src/Programs/Tokens/Transfers.antt =====
-- What `transfer` reads and which transaction it submits.
use brale_miden_demo.Base.{ℕ, [], ◌∷◌, ◌≡◌, List, get_elem?, some, Result, ok}
use brale_miden_demo.Text.{Str}
use brale_miden_demo.Decimal.{parse, max_u64}
use brale_miden_demo.Crypto.{Crypto}
use brale_miden_demo.Client
use brale_miden_demo.Client.{Client, Error}
use brale_miden_demo.Config.{Config}
use brale_miden_demo.Keystore.{FilesystemKeyStore}
use brale_miden_demo.Operations.Recorded.Submissions.{R, W, ChainOutcome}
use brale_miden_demo.Programs.Setup.{Machine}

-- The issuer, the sender, the recipient and the amount.
abbrev Arguments : Type 0 → Type 0
Arguments Account = Account × Account × Account × ℕ

module _ (C : Crypto) (F : FilesystemKeyStore C) (K : Client C) (M : Machine C F K) where
  -- What was read where the arguments are accepted.
  abbrev pub AcceptedTransfer : Config → List Str → Arguments K.AccountId → Type 0
  AcceptedTransfer config args (issuer, sender, recipient, amount) =
      (i : Str) × (s : Str) × (r : Str) × (n : Str) × (config.issuer_account_id ≡ some i)
      × (get_elem? args 1 ≡ some s)
      × (get_elem? args 2 ≡ some r)
      × (get_elem? args 3 ≡ some n)
      × (M.parse_account i ≡ ok issuer)
      × (M.parse_account s ≡ ok sender)
      × (M.parse_account r ≡ ok recipient)
      × (parse max_u64 n ≡ ok amount)

module _ (C : Crypto) (F : FilesystemKeyStore C) (K : Client C) (M : Machine C F (R C K)) where
  -- A transfer between the accounts that were read.
  abbrev pub TransferOutcome :
      Arguments K.AccountId → W C K → Result Error (Unit {0}) → W C K → Type 0
  TransferOutcome (issuer, sender, recipient, amount) =
      ChainOutcome C K sender (K.fungible_asset issuer amount)
        (λ asset. K.build_pay_to_id (asset ∷ []) sender recipient Client.NoteType.private)
