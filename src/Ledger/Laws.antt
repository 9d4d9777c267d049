-- ===== src/Ledger/Laws.antt =====
-- How a client's state is read as the ledger of one token, and what miden_client and the network do
-- to that ledger: the code of operations.rs does not implement it, so it is assumed.
use brale_miden_demo.Base.{ℕ, List, [], ◌∷◌, ◌≡◌, ◌⊎◌, true, false, map, Eq, ok, err}
use brale_miden_demo.Crypto.{Crypto}
use brale_miden_demo.Client.{Client, NoteType, Error}
use brale_miden_demo.Ledger.{Note, Ledger, Order, issue, output, consume, Step, Reach}

-- One transaction that was refused, or that took effect although its submission reported an error.
abbrev pub Attempt :
    {Account : Type 0} ⦃e : Eq Account⦄
    → Account
    → Account
    → Order Account
    → Ledger Account
    → Ledger Account
    → Type 0
Attempt issuer id o l l' = (l' ≡ l) ⊎ Step issuer id o l l'

-- A note with an amount for an account, and one that the issuer is to burn.
abbrev pub payment : {Account : Type 0} → Account → ℕ → Note Account
payment id n = record { owner = id; amount = n; burns = false }

abbrev pub burn_order : {Account : Type 0} → Account → ℕ → Note Account
burn_order id n = record { owner = id; amount = n; burns = true }

pub record Laws (C : Crypto) (K : Client C) (issuer : K.AccountId) : Type 0 where
  -- An account's id tells it from the others.
  pub account_eq : Eq K.AccountId
  -- The issuer's token as the client's state and the network hold it, the value of a note in that
  -- token, and what a request asks for.
  pub view : K.State → Ledger K.AccountId
  pub note_value : K.Note → Note K.AccountId
  pub order : K.TransactionRequest → Order K.AccountId
  -- A request asks for what it was built from.
  pub mint_order :
      (n : ℕ) (asset : K.FungibleAsset) (target : K.AccountId) (type : NoteType) (s : K.State)
      (request : K.TransactionRequest)
      → K.fungible_asset issuer n ≡ ok asset
      → (K.build_mint_fungible_asset asset target type s).0 ≡ ok request
      → order request ≡ issue (payment target n)
  pub pay_order :
      (n : ℕ) (asset : K.FungibleAsset) (sender target : K.AccountId) (type : NoteType)
      (s : K.State) (request : K.TransactionRequest)
      → K.fungible_asset issuer n ≡ ok asset
      → (K.build_pay_to_id (asset ∷ []) sender target type s).0 ≡ ok request
      → order request ≡ output (payment target n)
  pub burn_value :
      (n : ℕ) (asset : K.FungibleAsset) (sender : K.AccountId) (attachment : K.NoteAttachment)
      (s : K.State) (note : K.Note)
      → K.fungible_asset issuer n ≡ ok asset
      → (K.create_burn_note sender issuer asset attachment s).0 ≡ ok note
      → note_value note ≡ burn_order issuer n
  pub output_order :
      (note : K.Note) (request : K.TransactionRequest)
      → K.build_own_output_notes (note ∷ []) ≡ ok request
      → order request ≡ output (note_value note)
  pub consume_order :
      (notes : List K.Note) (request : K.TransactionRequest)
      → K.build_consume_notes notes ≡ ok request
      → order request ≡ consume (map note_value notes)
  -- A builder draws randomness and leaves the token alone.
  pub mint_view :
      (asset : K.FungibleAsset) (target : K.AccountId) (type : NoteType) (s : K.State)
      → view (K.build_mint_fungible_asset asset target type s).1 ≡ view s
  pub pay_view :
      (assets : List K.FungibleAsset) (sender target : K.AccountId) (type : NoteType) (s : K.State)
      → view (K.build_pay_to_id assets sender target type s).1 ≡ view s
  pub burn_view :
      (sender : K.AccountId) (asset : K.FungibleAsset) (attachment : K.NoteAttachment) (s : K.State)
      → view (K.create_burn_note sender issuer asset attachment s).1 ≡ view s
  -- A submission without an error has taken effect.
  pub submitted :
      (id : K.AccountId) (request : K.TransactionRequest) (s : K.State) (tx : K.TransactionId)
      → (K.submit_new_transaction id request s).0 ≡ ok tx
      → Step ⦃e = account_eq⦄ issuer id
          (order request)
          (view s)
          (view (K.submit_new_transaction id request s).1)
  pub refused :
      (id : K.AccountId) (request : K.TransactionRequest) (s : K.State) (e : Error)
      → (K.submit_new_transaction id request s).0 ≡ err e
      → Attempt ⦃e = account_eq⦄ issuer id
          (order request)
          (view s)
          (view (K.submit_new_transaction id request s).1)
  -- What others do meanwhile shows after a sync or a pause.
  pub synced : (s : K.State) → Reach ⦃e = account_eq⦄ issuer (view s) (view (K.sync_state s).1)
  pub slept : (s : K.State) → Reach ⦃e = account_eq⦄ issuer (view s) (view (K.sleep 3 s))
