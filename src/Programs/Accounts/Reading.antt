-- ===== src/Programs/Accounts/Reading.antt =====
-- The programs that read leave the client as they found it.
use brale_miden_demo.Base.{ℕ, ◌≡◌, [], ◌∷◌, some, get_elem?, List, Result, ok, err, arith}
use brale_miden_demo.Text.{Str, text}
use brale_miden_demo.Crypto.{Crypto}
use brale_miden_demo.Client.{Client, Error}
use brale_miden_demo.Config.{Config}
use brale_miden_demo.Keystore.{FilesystemKeyStore}
use brale_miden_demo.Operations.Monad.{World}
use brale_miden_demo.Operations.Reads
use brale_miden_demo.Operations.Reads.{full_account, issuer_account}
use brale_miden_demo.Programs.Setup.{Machine, Prepared}
use brale_miden_demo.Programs.Accounts.{read_balance}

module _ (C : Crypto) (K : Client C) where
  full_account_world :
      (failed missing whose : Str) (id : K.AccountId) (w : World K.State)
      → (full_account C K failed missing whose id w).1 ≡ w
  unfolding full_account
  full_account_world failed missing whose id w = ground arith

  pub read_balance_world :
      (id issuer : K.AccountId) (w : World K.State) → (Reads.read_balance C K id issuer w).1 ≡ w
  unfolding Reads.read_balance
  read_balance_world id issuer w = ground (
    arith,
    full_account_world (text "failed to get account") (text "account not found") (text "account ")
        id w,
  )

  -- No read of the supply changes anything.
  pub read_total_supply_world :
      (issuer : K.AccountId) (w : World K.State) → (Reads.read_total_supply C K issuer w).1 ≡ w
  unfolding Reads.read_total_supply
  read_total_supply_world issuer w = ground (
    arith,
    full_account_world (text "failed to get issuer account") (text "issuer account not found")
        (text "issuer ") issuer w,
  )

module _ (C : Crypto) (F : FilesystemKeyStore C) (K : Client C) (M : Machine C F K) where
  -- The client of a program, with nothing printed yet.
  abbrev pub untouched : Prepared C F K M → World K.State
  untouched p = record { state = p.client; out = [] }

  -- One line printed for a number that was read from the client as it was built, or an error; the client
  -- is unchanged.
  abbrev pub ReadOutcome :
      (World K.State → ℕ → Str → Type 0)
      → Prepared C F K M
      → Result Error (Unit {0})
      → World K.State
      → Type 0
  ReadOutcome Read p (ok _) w' =
      (n : ℕ) × (line : Str) × Read (untouched p) n line
      × (w' ≡ record (untouched p) { out = line ∷ [] })
  ReadOutcome Read p (err e) w' = w' ≡ untouched p

  -- The configuration names the issuer, and the first argument the account.
  abbrev pub NamesBalance : Config → List Str → K.AccountId → K.AccountId → Type 0
  NamesBalance config args issuer account =
      (i : Str) × (a : Str) × (config.issuer_account_id ≡ some i)
      × (get_elem? args 1 ≡ some a)
      × (M.parse_account i ≡ ok issuer)
      × (M.parse_account a ≡ ok account)
