-- ===== src/Programs/FullDemo/Completing.antt =====
-- The demo ends without an error: the steps on the token.
use brale_miden_demo.Base.{◌≤◌, ◌≡◌, refl, sym, ◌∙◌, subst, ap, ok, arith}
use brale_miden_demo.Text.{Str}
use brale_miden_demo.Crypto.{Crypto}
use brale_miden_demo.Client.{Client}
use brale_miden_demo.Operations.Monad.{World, Action, ◌>>◌, println}
use brale_miden_demo.Ledger.{Ledger}
use brale_miden_demo.Ledger.Laws.{Laws}
use brale_miden_demo.Ledger.Alone.{Alone}
use brale_miden_demo.Ledger.Online.{Online}
use brale_miden_demo.Ledger.Online.{Signing}
use brale_miden_demo.Ledger.Online.Reading.{read_balance-ok, read_total_supply-ok}
use brale_miden_demo.Programs.Accounts.Reading.{read_balance_world, read_total_supply_world}
use brale_miden_demo.Programs.FullDemo.{heading, print_state, mint_step, transfer_step, burn_step}
use brale_miden_demo.Programs.FullDemo.Balances.{complete, steps}
use brale_miden_demo.Programs.FullDemo.Amounts.{
  Apart, fresh, minted, paid_in, moving, moved, burnt_down,
}
use brale_miden_demo.Programs.FullDemo.Running.{
  Runs, AllActive, next-Runs, mint-Runs, consume_a-Runs, transfer-Runs, consume_b-Runs, burn-Runs,
}

module _ (C : Crypto) (K : Client C) (issuer : K.AccountId) (H : Laws C K issuer)
    (A : Alone C K issuer H) (G : Signing C K) (O : Online C K issuer H G) where
  module _ (a b : K.AccountId) where
    print_state-ok :
        (w : World K.State)
        → AllActive C K issuer H A G O a b w.state
        → (print_state C K issuer a b w).0 ≡ ok tt
    unfolding print_state
    print_state-ok w (i, x, y) =
        let (supply, es) = read_total_supply-ok C K issuer O.reads w i.0 in
        let (bal_a, ea) = read_balance-ok C K issuer O.reads a w x.0 in
        let (bal_b, eb) = read_balance-ok C K issuer O.reads b w y.0 in ground arith

    print_state_world : (w : World K.State) → (print_state C K issuer a b w).1.state ≡ w.state
    unfolding print_state
    print_state_world w = ground (
      arith,
      read_total_supply_world C K issuer w,
      read_balance_world C K a issuer w,
      read_balance_world C K b issuer w,
    )

    -- An action that ends without an error and leaves the client as it was.
    quiet-Runs :
        {T : Type 0} (x : T) (m : Action K.State T) (l : Ledger K.AccountId)
        → ((w : World K.State) → AllActive C K issuer H A G O a b w.state → (m w).0 ≡ ok x)
        → ((w : World K.State) → (m w).1.state ≡ w.state)
        → Runs C K issuer H A G O a b m l l
    quiet-Runs x m l succeeds quiet = record {
      holds = λ w e t. (
        x,
        (m w).1,
        (λ i. (succeeds w t i, (m w).1)),
        ap H.view (quiet w) ∙ e,
        subst (AllActive C K issuer H A G O a b) (sym (quiet w)) t,
      );
    }

    heading-Runs :
        (line : Str) (l : Ledger K.AccountId) → Runs C K issuer H A G O a b (heading line) l l
    heading-Runs line l = quiet-Runs tt (heading line) l (λ w t. refl) (λ w. refl)

    println-Runs :
        (line : Str) (l : Ledger K.AccountId) → Runs C K issuer H A G O a b (println line) l l
    println-Runs line l = quiet-Runs tt (println line) l (λ w t. refl) (λ w. refl)

    print_state-Runs :
        (l : Ledger K.AccountId) → Runs C K issuer H A G O a b (print_state C K issuer a b) l l
    print_state-Runs l =
        quiet-Runs tt (print_state C K issuer a b) l print_state-ok print_state_world

    -- An operation, a line, a consumption, a line, and the end of a step.
    stage :
        {U : Type 0} (m c : Action K.State (Unit {0})) (k : Action K.State U) (done consumed : Str)
        (l n l' : Ledger K.AccountId)
        → Runs C K issuer H A G O a b m l n
        → Runs C K issuer H A G O a b c n l'
        → ((x : Ledger K.AccountId) → Runs C K issuer H A G O a b k x x)
        → Runs C K issuer H A G O a b (m >> (println done >> (c >> (println consumed >> k)))) l l'
    stage m c k done consumed l n l' hm hc hk = next-Runs C K issuer H A G O a b m _ l n l' hm (
        next-Runs C K issuer H A G O a b _ _ n n l' (println-Runs done n) (
          next-Runs C K issuer H A G O a b c _ n l' l' hc
            (next-Runs C K issuer H A G O a b _ k l' l' l' (println-Runs consumed l') (hk l'))))

    module _ (D : Apart H.account_eq issuer a b) (fits : 1000 ≤ O.max_supply) where
      mint_step-Runs :
          Runs C K issuer H A G O a b
            (mint_step C K issuer a b)
            (fresh issuer a b)
            (paid_in issuer a b)
      unfolding mint_step
      mint_step-Runs =
          next-Runs C K issuer H A G O a b _ _ (fresh issuer a b) (fresh issuer a b)
            (paid_in issuer a b) (heading-Runs _ _)
            (stage _ _ _ _ _ (fresh issuer a b) (minted issuer a b) (paid_in issuer a b)
              (mint-Runs C K issuer H A G O a b D fits)
              (consume_a-Runs C K issuer H A G O a b D fits) print_state-Runs)

      transfer_step-Runs :
          Runs C K issuer H A G O a b
            (transfer_step C K issuer a b)
            (paid_in issuer a b)
            (moved issuer a b)
      unfolding transfer_step
      transfer_step-Runs =
          next-Runs C K issuer H A G O a b _ _ (paid_in issuer a b) (paid_in issuer a b)
            (moved issuer a b) (heading-Runs _ _)
            (stage _ _ _ _ _ (paid_in issuer a b) (moving issuer a b) (moved issuer a b)
              (transfer-Runs C K issuer H A G O a b D fits)
              (consume_b-Runs C K issuer H A G O a b D fits) print_state-Runs)

      burn_step-Runs :
          Runs C K issuer H A G O a b
            (burn_step C K issuer a b)
            (moved issuer a b)
            (burnt_down issuer a b)
      unfolding burn_step
      burn_step-Runs =
          next-Runs C K issuer H A G O a b _ _ (moved issuer a b) (moved issuer a b)
            (burnt_down issuer a b) (heading-Runs _ _)
            (next-Runs C K issuer H A G O a b _ _ (moved issuer a b) (burnt_down issuer a b)
              (burnt_down issuer a b) (burn-Runs C K issuer H A G O a b D fits)
              (next-Runs C K issuer H A G O a b _ _ (burnt_down issuer a b) (burnt_down issuer a b)
                (burnt_down issuer a b) (println-Runs _ _) (print_state-Runs _)))

      pub steps-Runs :
          Runs C K issuer H A G O a b
            (steps C K (issuer, a, b))
            (fresh issuer a b)
            (burnt_down issuer a b)
      steps-Runs =
          next-Runs C K issuer H A G O a b _ _ (fresh issuer a b) (paid_in issuer a b)
            (burnt_down issuer a b) mint_step-Runs
            (next-Runs C K issuer H A G O a b _ _ (paid_in issuer a b) (moved issuer a b)
              (burnt_down issuer a b) transfer_step-Runs
              (next-Runs C K issuer H A G O a b _ _ (moved issuer a b) (burnt_down issuer a b)
                (burnt_down issuer a b) burn_step-Runs
                (quiet-Runs (issuer, a, b) (complete C K (issuer, a, b)) (burnt_down issuer a b)
                  (λ w t. refl) (λ w. refl))))
