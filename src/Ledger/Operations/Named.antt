-- ===== src/Ledger/Operations/Named.antt =====
-- The operations on a token, by their arguments.
use brale_miden_demo.Base.{ℕ}
use brale_miden_demo.Crypto.{Crypto}
use brale_miden_demo.Client.{Client}
use brale_miden_demo.Operations.Monad.{Action}
use brale_miden_demo.Operations.Tokens.{mint_tokens, transfer_tokens, burn_tokens}
use brale_miden_demo.Operations.Notes.{consume_notes}

-- An operation on the token, with its arguments but the issuer.
pub data Operation (Account : Type 0) : Type 0 where
  mint : (target : Account) (amount : ℕ) → Operation Account
  transfer : (sender recipient : Account) (amount : ℕ) → Operation Account
  burn : (sender : Account) (amount : ℕ) → Operation Account
  consume : (id : Account) → Operation Account

module _ (C : Crypto) (K : Client C) (issuer : K.AccountId) where
  abbrev pub perform : Operation K.AccountId → Action K.State (Unit {0})
  perform (mint target n) = mint_tokens C K issuer target n
  perform (transfer sender recipient n) = transfer_tokens C K sender recipient issuer n
  perform (burn sender n) = burn_tokens C K sender issuer n
  perform (consume id) = consume_notes C K id
