-- ===== src/Ledger/Online/Reading.antt =====
-- The reads of an account that is tracked succeed.
use brale_miden_demo.Base.{ℕ, ◌≡◌, ok, arith}
use brale_miden_demo.Text.{text}
use brale_miden_demo.Crypto.{Crypto}
use brale_miden_demo.Client.{Client}
use brale_miden_demo.Operations.Monad.{World}
use brale_miden_demo.Operations.Reads.{read_balance, read_total_supply}
use brale_miden_demo.Operations.Reads.Tracking.{full_account-full}
use brale_miden_demo.Ledger.Online.{Readable, Tracked}
use brale_miden_demo.Ledger.Online.Completing.{IsOk-ok}

module _ (C : Crypto) (K : Client C) (issuer : K.AccountId) (R : Readable C K issuer) where
  pub read_balance-ok :
      (id : K.AccountId) (w : World K.State)
      → Tracked C K id w.state
      → (n : ℕ) × (read_balance C K id issuer w ≡ (ok n, w))
  unfolding read_balance
  read_balance-ok id w (r, account, found, data') =
      let (n, e) = IsOk-ok (K.get_balance account issuer) (R.balance_ok account) in
      (
        n,
        ground (
          arith,
          full_account-full C K (text "failed to get account") (text "account not found")
              (text "account ") id r account w found data',
        ),
      )

  pub read_total_supply-ok :
      (w : World K.State)
      → Tracked C K issuer w.state
      → (n : ℕ) × (read_total_supply C K issuer w ≡ (ok n, w))
  unfolding read_total_supply
  read_total_supply-ok w (r, account, found, data') =
      let (item, e) =
        IsOk-ok (K.get_item account K.faucet_sysdata_slot)
          (R.issuance_ok w.state r account found data') in
      (
        K.as_int item.0,
        ground (
          arith,
          full_account-full C K (text "failed to get issuer account")
              (text "issuer account not found") (text "issuer ") issuer r account w found data',
        ),
      )
