-- ===== src/Programs/FullDemo/Printed.antt =====
-- What the tables of the demo show of the ledger of its token.
use brale_miden_demo.Base.{◌≡◌, ◌∙◌, ◌++◌, ok, inl, inr, Result-cases, arith}
use brale_miden_demo.Text.{text}
use brale_miden_demo.Crypto.{Crypto}
use brale_miden_demo.Client.{Client}
use brale_miden_demo.Display.BalanceTable.{print_balance_table}
use brale_miden_demo.Operations.Monad.{World}
use brale_miden_demo.Operations.Reads.{read_balance, read_total_supply}
use brale_miden_demo.Ledger.{balance}
use brale_miden_demo.Ledger.Laws.{Laws}
use brale_miden_demo.Ledger.Operations.{seen}
use brale_miden_demo.Ledger.Shows.{Shows, read_balance-shown, read_total_supply-shown}
use brale_miden_demo.Programs.Accounts.Reading.{read_balance_world, read_total_supply_world}
use brale_miden_demo.Programs.FullDemo.{print_state}

module _ (C : Crypto) (K : Client C) (issuer : K.AccountId) (H : Laws C K issuer)
    (S : Shows C K issuer H) where
  pub print_state-shown :
      (a b : K.AccountId) (w w' : World K.State)
      → print_state C K issuer a b w ≡ (ok tt, w')
      → w' ≡ record w {
        out =
            w.out
            ++ print_balance_table
                (text "USDB")
                (seen C K issuer H w).supply
                (balance ⦃e = H.account_eq⦄ a (seen C K issuer H w).vaults)
                (balance ⦃e = H.account_eq⦄ b (seen C K issuer H w).vaults);
      }
  unfolding print_state
  print_state-shown a b w w' h = elim (Result-cases (read_total_supply C K issuer w).0) [
    | inl (supply, es) ↦ elim (Result-cases (read_balance C K a issuer w).0) [
      | inl (bal_a, ea) ↦ elim (Result-cases (read_balance C K b issuer w).0) [
        | inl (bal_b, eb) ↦
            let printed : w'
                ≡ record w { out = w.out ++ print_balance_table (text "USDB") supply bal_a bal_b } =
              ground (
                arith,
                read_total_supply_world C K issuer w,
                read_balance_world C K a issuer w,
                read_balance_world C K b issuer w,
              ) in
            printed ∙ (λ i. record w {
              out =
                  w.out
                  ++ print_balance_table (text "USDB")
                      (read_total_supply-shown C K issuer H S supply w es i)
                      (read_balance-shown C K issuer H S a bal_a w ea i)
                      (read_balance-shown C K issuer H S b bal_b w eb i);
            })
        | inr (x, ex) ↦ absurd (
            ground (arith, read_total_supply_world C K issuer w, read_balance_world C K a issuer w))
      ]
      | inr (x, ex) ↦
          absurd (
            ground (arith, read_total_supply_world C K issuer w, read_balance_world C K a issuer w))
    ]
    | inr (x, ex) ↦
        absurd
          (ground (arith, read_total_supply_world C K issuer w, read_balance_world C K a issuer w))
  ]
