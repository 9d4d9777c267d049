-- ===== src/Ledger/Shows.antt =====
-- What the accounts of the client show of the ledger.
use brale_miden_demo.Base.{ℕ, ◌≡◌, ◌∙◌, some, ok, inl, inr, Result-cases, arith}
use brale_miden_demo.Text.{text}
use brale_miden_demo.Crypto.{Crypto}
use brale_miden_demo.Client.{Client, full}
use brale_miden_demo.Operations.Monad.{World}
use brale_miden_demo.Operations.Reads.Tracking.{full_account-tracked_by}
use brale_miden_demo.Operations.Reads.{
  full_account, issuer_account, read_balance, read_total_supply,
}
use brale_miden_demo.Ledger.{balance}
use brale_miden_demo.Ledger.Laws.{Laws}
use brale_miden_demo.Ledger.Operations.{seen}

-- The accounts that the client tracks hold what the ledger says.
pub record Shows (C : Crypto) (K : Client C) (issuer : K.AccountId) (H : Laws C K issuer)
    : Type 0 where
  pub balance_shown :
      (id : K.AccountId) (s : K.State) (r : K.AccountRecord) (account : K.Account) (n : ℕ)
      → K.get_account id s ≡ ok (some r)
      → K.account_data r ≡ full account
      → K.get_balance account issuer ≡ ok n
      → n ≡ balance ⦃e = H.account_eq⦄ id (H.view s).vaults
  pub supply_shown :
      (s : K.State) (r : K.AccountRecord) (account : K.Account) (x y z t : K.Felt)
      → K.get_account issuer s ≡ ok (some r)
      → K.account_data r ≡ full account
      → K.get_item account K.faucet_sysdata_slot ≡ ok (x, y, z, t)
      → K.as_int x ≡ (H.view s).supply

module _ (C : Crypto) (K : Client C) (issuer : K.AccountId) (H : Laws C K issuer)
    (S : Shows C K issuer H) where
  pub read_balance-shown :
      (id : K.AccountId) (n : ℕ) (w : World K.State)
      → (read_balance C K id issuer w).0 ≡ ok n
      → n ≡ balance ⦃e = H.account_eq⦄ id (seen C K issuer H w).vaults
  unfolding read_balance
  read_balance-shown id n w h =
      elim (Result-cases
        (full_account C K (text "failed to get account") (text "account not found")
          (text "account ") id w).0) [
            | inl (account, ea) ↦
                let (r, found, data') =
                  full_account-tracked_by C K (text "failed to get account")
                    (text "account not found") (text "account ") id account w ea in
                S.balance_shown id w.state r account n found data' (ground arith)
            | inr (x, ex) ↦ absurd (ground arith)
          ]

  pub read_total_supply-shown :
      (n : ℕ) (w : World K.State)
      → (read_total_supply C K issuer w).0 ≡ ok n
      → n ≡ (seen C K issuer H w).supply
  unfolding read_total_supply
  read_total_supply-shown n w h = elim (Result-cases (issuer_account C K issuer w).0) [
    | inl (account, ea) ↦
        let (r, found, data') =
          full_account-tracked_by C K (text "failed to get issuer account")
            (text "issuer account not found") (text "issuer ") issuer account w ea in
        elim (Result-cases (K.get_item account K.faucet_sysdata_slot)) [
          | inl (item, ei) ↦
              let (x, y, z, t) = item in
              let read : n ≡ K.as_int item.0 = ground arith in
              read ∙ S.supply_shown w.state r account x y z t found data' ei
          | inr (x, ei) ↦ absurd (ground arith)
        ]
    | inr (x, ex) ↦ absurd (ground arith)
  ]
