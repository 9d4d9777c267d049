-- ===== src/Ledger/Online/Performing.antt =====
-- Every operation that the ledger permits completes.
use brale_miden_demo.Base.{◌≡◌, ok}
use brale_miden_demo.Crypto.{Crypto}
use brale_miden_demo.Client.{Client}
use brale_miden_demo.Operations.Monad.{World}
use brale_miden_demo.Ledger.{Ledger}
use brale_miden_demo.Ledger.Laws.{Laws}
use brale_miden_demo.Ledger.Operations.{seen}
use brale_miden_demo.Ledger.Operations.Named.{Operation, perform}
use brale_miden_demo.Ledger.Alone.{Alone}
use brale_miden_demo.Ledger.Alone.Refining.{Effect}
use brale_miden_demo.Ledger.Online.{Online, Signing}

module _ (C : Crypto) (K : Client C) (issuer : K.AccountId) (H : Laws C K issuer)
    (A : Alone C K issuer H) (G : Signing C K) (O : Online C K issuer H G) where
  abbrev pub Completes : Operation K.AccountId → World K.State → Type 0
  Completes o w =
      (w' : World K.State) × (perform C K issuer o w ≡ (ok tt, w'))
      × Effect C K issuer H o (seen C K issuer H w) (seen C K issuer H w')
