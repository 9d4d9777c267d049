-- ===== src/Tests/Operations.antt =====
-- Operations on the token of account 2.
use brale_miden_demo.Base.{ℕ, [], ◌∷◌, nat_eq}
use brale_miden_demo.Operations.Monad.{World}
use brale_miden_demo.Ledger.{Ledger}

abbrev holding : World (Ledger ℕ)
holding = record { state = record { supply = 5; vaults = (3, 5) ∷ []; notes = [] }; out = [] }
