-- ===== src/Ledger/Online.antt =====
-- A client whose calls succeed where the ledger and the network permit what they ask for.
pub mod Completing
pub mod Permitting
pub mod Performing
pub mod Reading
use brale_miden_demo.Base.{
  ℕ, ◌+◌, ◌≤◌, ◌<◌, ◌^◌, List, [], ◌∷◌, ◌≡◌, Bool, refl, some, Result, ok, err,
}
use brale_miden_demo.Crypto.{Crypto}
use brale_miden_demo.Client.{Client, NoteType, AccountBuilder, full}
use brale_miden_demo.Operations.Notes.{max_attempts}
use brale_miden_demo.Operations.Notes.Polling.{IsOk, synced, after, Waits}
use brale_miden_demo.Operations.Calls.{Kept}
use brale_miden_demo.Ledger.{Note, Ledger, Step}
use brale_miden_demo.Ledger.Laws.{Laws}
use brale_miden_demo.Ledger.Alone.{own}

-- The client tracks an account in full.
abbrev pub Tracked : (C : Crypto) (K : Client C) → K.AccountId → K.State → Type 0
Tracked C K id s =
    (r : K.AccountRecord) × (account : K.Account) × (K.get_account id s ≡ ok (some r))
    × (K.account_data r ≡ full account)

-- Within the attempts of the loop the client comes to show a note for the account, and no call fails
-- up to there.
abbrev pub Delivered : (C : Crypto) (K : Client C) → K.AccountId → K.State → Type 0
Delivered C K id s =
    (k : ℕ) × (n : K.InputNoteRecord × K.NoteRelevance) × (rest : List
      (K.InputNoteRecord × K.NoteRelevance))
    × (k < max_attempts)
    × Waits C K id k s
    × IsOk (K.sync_state (after C K id k s)).0
    × (K.get_consumable_notes (some id) (synced C K id (after C K id k s)) ≡ ok (n ∷ rest))

-- The vault of an account, and the issuance that a tracked issuer stores, can be read.
pub record Readable (C : Crypto) (K : Client C) (issuer : K.AccountId) : Type 0 where
  pub balance_ok : (account : K.Account) → IsOk (K.get_balance account issuer)
  pub issuance_ok :
      (s : K.State) (r : K.AccountRecord) (account : K.Account)
      → K.get_account issuer s ≡ ok (some r)
      → K.account_data r ≡ full account
      → IsOk (K.get_item account K.faucet_sysdata_slot)

-- In which states whatever a client asks to be signed for a commitment is signed.
abbrev pub Signing : (C : Crypto) → Client C → Type 1
Signing C K = K.State → C.PublicKeyCommitment → Type 0

module _ (C : Crypto) (K : Client C) (G : Signing C K) where
  -- The client tracks an account in full, and what it asks to be signed for the account's key is signed.
  abbrev pub Active : K.AccountId → K.State → Type 0
  Active id s =
      Tracked C K id s
      × (b : AccountBuilder C.PublicKeyCommitment K.FaucetComponent) × (account : K.Account)
      × (K.build_account b ≡ ok account)
      × (K.account_id account ≡ id)
      × G s b.auth_component

  -- A client goes on tracking its accounts, and its authenticator stays.
  pub record Keeping : Type 0 where
    pub tracked_kept : (id : K.AccountId) → Kept C K (Tracked C K id)
    pub signs_kept : (key : C.PublicKeyCommitment) → Kept C K (λ s. G s key)

  pub Active-kept : Keeping → (id : K.AccountId) → Kept C K (Active id)
  Active-kept W id s s' c (t, b, account, built, e, g) = (
    Keeping.tracked_kept W id s s' c t,
    b,
    account,
    built,
    e,
    Keeping.signs_kept W b.auth_component s s' c g,
  )

pub record Online (C : Crypto) (K : Client C) (issuer : K.AccountId) (H : Laws C K issuer)
    (G : Signing C K) : Type 0 where
  -- The cap of the token.
  pub max_supply : ℕ
  pub keeping : Keeping C K G
  pub asset_ok : (n : ℕ) → n < 2 ^ 63 → IsOk (K.fungible_asset issuer n)
  pub mint_ok :
      (n : ℕ) (asset : K.FungibleAsset) (target : K.AccountId) (type : NoteType) (s : K.State)
      → K.fungible_asset issuer n ≡ ok asset
      → IsOk (K.build_mint_fungible_asset asset target type s).0
  pub pay_ok :
      (n : ℕ) (asset : K.FungibleAsset) (sender target : K.AccountId) (type : NoteType)
      (s : K.State)
      → K.fungible_asset issuer n ≡ ok asset
      → IsOk (K.build_pay_to_id (asset ∷ []) sender target type s).0
  pub burn_ok :
      (n : ℕ) (asset : K.FungibleAsset) (sender : K.AccountId) (s : K.State)
      → K.fungible_asset issuer n ≡ ok asset
      → IsOk (K.create_burn_note sender issuer asset K.default_attachment s).0
  pub output_ok : (note : K.Note) → IsOk (K.build_own_output_notes (note ∷ []))
  pub consume_ok :
      (note : K.Note) (notes : List K.Note) → IsOk (K.build_consume_notes (note ∷ notes))
  -- A transaction that the ledger permits is accepted, if its account is tracked and its key signs.
  pub accepted :
      (id : K.AccountId) (request : K.TransactionRequest) (s : K.State) (l : Ledger K.AccountId)
      → Active C K G id s
      → Step ⦃e = H.account_eq⦄ issuer id (H.order request) (H.view s) l
      → l.supply ≤ max_supply
      → IsOk (K.submit_new_transaction id request s).0
  -- A note of the ledger comes to be shown to the tracked account that it is for.
  pub delivered :
      (id : K.AccountId) (s : K.State) (n : Note K.AccountId) (rest : List (Note K.AccountId))
      → Tracked C K id s
      → own H.account_eq id (H.view s).notes ≡ n ∷ rest
      → Delivered C K id s
  pub reads : Readable C K issuer
