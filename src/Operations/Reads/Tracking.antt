-- ===== src/Operations/Reads/Tracking.antt =====
-- What the reads find of an account that is tracked in full.
use brale_miden_demo.Base.{◌≡◌, ◌⊎◌, refl, some, ok, inl, inr, Option-cases, Result-cases, arith}
use brale_miden_demo.Text.{Str}
use brale_miden_demo.Crypto.{Crypto}
use brale_miden_demo.Client.{Client, full, partial, AccountRecordData}
use brale_miden_demo.Operations.Monad.{World}
use brale_miden_demo.Operations.Reads.{full_account}

module _ (C : Crypto) (K : Client C) where
  data_cases :
      (d : AccountRecordData K.Account)
      → ((account : K.Account) × (d ≡ full account)) ⊎ (d ≡ partial)
  data_cases (full account) = inl (account, refl)
  data_cases partial = inr refl

  -- The account that a read found.
  pub full_account-tracked_by :
      (failed missing whose : Str) (id : K.AccountId) (account : K.Account) (w : World K.State)
      → (full_account C K failed missing whose id w).0 ≡ ok account
      → (r : K.AccountRecord) × (K.get_account id w.state ≡ ok (some r))
        × (K.account_data r ≡ full account)
  unfolding full_account
  full_account-tracked_by failed missing whose id account w h =
      elim (Result-cases (K.get_account id w.state)) [
        | inl (found, ef) ↦ elim (Option-cases found) [
          | inl absent ↦ absurd (ground arith)
          | inr (r, er) ↦ elim (data_cases (K.account_data r)) [
            | inl (a, ea) ↦ (r, ground arith, ground arith)
            | inr ea ↦ absurd (ground arith)
          ]
        ]
        | inr (x, ex) ↦ absurd (ground arith)
      ]

  pub full_account-full :
      (failed missing whose : Str) (id : K.AccountId) (r : K.AccountRecord) (account : K.Account)
      (w : World K.State)
      → K.get_account id w.state ≡ ok (some r)
      → K.account_data r ≡ full account
      → full_account C K failed missing whose id w ≡ (ok account, w)
  unfolding full_account
  full_account-full failed missing whose id r account w found data' = ground arith
