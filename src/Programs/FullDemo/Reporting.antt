-- ===== src/Programs/FullDemo/Reporting.antt =====
-- The steps of the demo as transactions of the ledger of its token, each with the table it ends with.
use brale_miden_demo.Base.{ℕ, sym, ◌∙◌, ap, [], ◌∷◌, ◌++◌, append-nil, List}
use brale_miden_demo.Text.{Str}
use brale_miden_demo.Crypto.{Crypto}
use brale_miden_demo.Client.{Client}
use brale_miden_demo.Operations.Monad.{World, Action, ◌>>◌, println}
use brale_miden_demo.Operations.Calls.{Keeps}
use brale_miden_demo.Operations.Calls.Preserving.{
  mint_tokens-Keeps, transfer_tokens-Keeps, consume_notes-Keeps, burn_tokens-Keeps,
}
use brale_miden_demo.Ledger.{Ledger, balance}
use brale_miden_demo.Ledger.Laws.{Laws}
use brale_miden_demo.Ledger.Alone.{Alone}
use brale_miden_demo.Ledger.Shows.{Shows}
use brale_miden_demo.Programs.FullDemo.{print_state, mint_step, transfer_step, burn_step}
use brale_miden_demo.Programs.FullDemo.Moves.{Moves}
use brale_miden_demo.Programs.FullDemo.Printed.{print_state-shown}
use brale_miden_demo.Programs.FullDemo.Amounts.{
  Holds, Apart, fresh, minted, paid_in, moving, moved, burnt_down, mint-Moves, consume_a-Moves,
  transfer-Moves, consume_b-Moves, burn-Moves, paid_in-Holds, moved-Holds, burnt_down-Holds,
}
use brale_miden_demo.Programs.FullDemo.Tables.{
  table, one_table, two_tables, Ends, then-Ends, Prints, Prints-Stable, At, Last, Moves-Ends,
  line-Ends, heading-Ends,
}

module _ (C : Crypto) (K : Client C) (issuer : K.AccountId) (H : Laws C K issuer)
    (A : Alone C K issuer H) (S : Shows C K issuer H) (a b : K.AccountId) where
  -- The table of what the ledger holds is printed last.
  print_state-Last :
      (l : Ledger K.AccountId) (ts : List (List Str)) (supply n m : ℕ)
      → Holds H.account_eq l supply (a, n) (b, m)
      → Ends C K
          (print_state C K issuer a b)
          (At C K issuer H A l ts)
          (Last C K issuer H A l ts (table supply n m))
  print_state-Last l ts supply n m (holds_supply, in_a, in_b, none_left) = record {
    holds = λ u w w' h (e, listed).
        let printed = print_state-shown C K issuer H S a b w w' h in
        let amounts : Ledger K.AccountId → List Str = λ x.
          table x.supply (balance ⦃e = H.account_eq⦄ a x.vaults)
            (balance ⦃e = H.account_eq⦄ b x.vaults) in
        (
          ap (λ (x : World K.State). H.view x.state) printed ∙ e,
          w.out,
          ap (λ (x : World K.State). x.out) printed
              ∙ (ap (λ x. w.out ++ amounts x) e
                  ∙ (λ i. w.out ++ table (holds_supply i) (in_a i) (in_b i))),
          listed,
        );
  }

  -- A table that was printed last is in the list.
  print_state-At :
      (l : Ledger K.AccountId) (ts : List (List Str)) (supply n m : ℕ)
      → Holds H.account_eq l supply (a, n) (b, m)
      → Ends C K
          (print_state C K issuer a b)
          (At C K issuer H A l ts)
          (At C K issuer H A l (table supply n m ∷ ts))
  print_state-At l ts supply n m held = record {
    holds = λ u w w' h at.
        let (e, before, out, listed) = (print_state-Last l ts supply n m held).holds u w w' h at in
        (
          e,
          (before, [], out ∙ ap (λ x. before ++ x) (sym (append-nil (table supply n m))), listed),
        );
  }

  -- A heading, an operation, a line, a consumption, a line, and the rest of a step.
  stage :
      {U : Type 0} (m c : Action K.State (Unit {0})) (k : Action K.State U) (done consumed : Str)
      (l n l' : Ledger K.AccountId) (ts : List (List Str)) (Q : World K.State → Type 0)
      → Moves C K issuer H A m l n
      → Keeps C K (Prints C K ts) (Prints-Stable C K ts) m
      → Moves C K issuer H A c n l'
      → Keeps C K (Prints C K ts) (Prints-Stable C K ts) c
      → Ends C K k (At C K issuer H A l' ts) Q
      → Ends C K (m >> (println done >> (c >> (println consumed >> k)))) (At C K issuer H A l ts) Q
  stage m c k done consumed l n l' ts Q hm pm hc pc hk =
      then-Ends C K m _ (At C K issuer H A l ts) (At C K issuer H A n ts) Q
        (Moves-Ends C K issuer H A m l n ts hm pm)
        (then-Ends C K _ _ (At C K issuer H A n ts) (At C K issuer H A n ts) Q
          (line-Ends C K issuer H A done n ts)
          (then-Ends C K c _ (At C K issuer H A n ts) (At C K issuer H A l' ts) Q
            (Moves-Ends C K issuer H A c n l' ts hc pc)
            (then-Ends C K _ k (At C K issuer H A l' ts) (At C K issuer H A l' ts) Q
              (line-Ends C K issuer H A consumed l' ts) hk)))

  module _ (D : Apart H.account_eq issuer a b) where
    pub mint_step-Ends :
        Ends C K
          (mint_step C K issuer a b)
          (At C K issuer H A (fresh issuer a b) [])
          (At C K issuer H A (paid_in issuer a b) one_table)
    unfolding mint_step
    mint_step-Ends =
        then-Ends C K _ _ (At C K issuer H A (fresh issuer a b) [])
          (At C K issuer H A (fresh issuer a b) [])
          (At C K issuer H A (paid_in issuer a b) one_table)
          (heading-Ends C K issuer H A _ (fresh issuer a b) [])
          (stage _ _ _ _ _ (fresh issuer a b) (minted issuer a b) (paid_in issuer a b) []
            (At C K issuer H A (paid_in issuer a b) one_table) (mint-Moves C K issuer H A a b D)
            (mint_tokens-Keeps C K (Prints C K []) (Prints-Stable C K []) issuer a 1000)
            (consume_a-Moves C K issuer H A a b D)
            (consume_notes-Keeps C K (Prints C K []) (Prints-Stable C K []) a)
            (print_state-At (paid_in issuer a b) [] 1000 1000 0
              (paid_in-Holds H.account_eq issuer a b D)))

    pub transfer_step-Ends :
        Ends C K
          (transfer_step C K issuer a b)
          (At C K issuer H A (paid_in issuer a b) one_table)
          (At C K issuer H A (moved issuer a b) two_tables)
    unfolding transfer_step
    transfer_step-Ends =
        then-Ends C K _ _ (At C K issuer H A (paid_in issuer a b) one_table)
          (At C K issuer H A (paid_in issuer a b) one_table)
          (At C K issuer H A (moved issuer a b) two_tables)
          (heading-Ends C K issuer H A _ (paid_in issuer a b) one_table)
          (stage _ _ _ _ _ (paid_in issuer a b) (moving issuer a b) (moved issuer a b) one_table
            (At C K issuer H A (moved issuer a b) two_tables) (transfer-Moves C K issuer H A a b D)
            (transfer_tokens-Keeps C K (Prints C K one_table) (Prints-Stable C K one_table) a b
              issuer 300)
            (consume_b-Moves C K issuer H A a b D)
            (consume_notes-Keeps C K (Prints C K one_table) (Prints-Stable C K one_table) b)
            (print_state-At (moved issuer a b) one_table 1000 700 300
              (moved-Holds H.account_eq issuer a b D)))

    pub burn_step-Ends :
        Ends C K
          (burn_step C K issuer a b)
          (At C K issuer H A (moved issuer a b) two_tables)
          (Last C K issuer H A (burnt_down issuer a b) two_tables (table 900 700 200))
    unfolding burn_step
    burn_step-Ends =
        let before = At C K issuer H A (moved issuer a b) two_tables in
        let after = At C K issuer H A (burnt_down issuer a b) two_tables in
        let last = Last C K issuer H A (burnt_down issuer a b) two_tables (table 900 700 200) in
        then-Ends C K _ _ before before last
          (heading-Ends C K issuer H A _ (moved issuer a b) two_tables)
          (then-Ends C K _ _ before after last
            (Moves-Ends C K issuer H A _ (moved issuer a b) (burnt_down issuer a b) two_tables
              (burn-Moves C K issuer H A a b D)
              (burn_tokens-Keeps C K (Prints C K two_tables) (Prints-Stable C K two_tables) b issuer
                100))
            (then-Ends C K _ _ after after last
              (line-Ends C K issuer H A _ (burnt_down issuer a b) two_tables)
              (print_state-Last (burnt_down issuer a b) two_tables 900 700 200
                (burnt_down-Holds H.account_eq issuer a b D))))
