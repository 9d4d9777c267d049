-- ===== src/Operations/Links.antt =====
-- What an operation prints, and what token operations share: submit, then print the link.
use brale_miden_demo.Base.{◌++◌, Result}
use brale_miden_demo.Text.{Str, text}
use brale_miden_demo.Crypto.{Crypto}
use brale_miden_demo.Client.{Client, Error}
use brale_miden_demo.Operations.Monad.{Action, ◌>>=◌, context, lift, call, println}

abbrev pub explorer_base : Str
explorer_base = text "https://testnet.midenscan.com"

module _ (C : Crypto) (K : Client C) where
  -- `"  ↳ {EXPLORER_BASE}/account/{}"`
  unfoldable pub account_link : K.AccountId → Str
  account_link id = text "  ↳ " ++ (explorer_base ++ (text "/account/" ++ K.display_account id))

  -- `"  ↳ {EXPLORER_BASE}/tx/{tx_id}"`
  unfoldable pub transaction_link : K.TransactionId → Str
  transaction_link id = text "  ↳ " ++ (explorer_base ++ (text "/tx/" ++ K.display_transaction id))

  -- `client.submit_new_transaction(id, tx_request).await.context(failed)?` and the line printed after
  -- it.
  unfoldable pub submit : Str → K.AccountId → K.TransactionRequest → Action K.State (Unit {0})
  submit failed id tx_request = do
    tx_id ← context failed (call (K.submit_new_transaction id tx_request))
    println (transaction_link tx_id)

  -- An asset, a request made of it by the client, and the submission of the request.
  abbrev pub chain :
      {A : Type 0}
      → K.AccountId
      → Result Error A
      → (A → K.State → Result Error K.TransactionRequest × K.State)
      → Str
      → Str
      → Str
      → Action K.State (Unit {0})
  chain id asset build no_asset no_request failed = do
    a ← context no_asset (lift asset)
    request ← context no_request (call (build a))
    submit failed id request
