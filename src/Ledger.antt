-- ===== src/Ledger.antt =====
-- What the operations of integration/src/operations.rs are to do to the ledger of one token: a
-- specification that knows only the supply, the vaults and the notes in flight.
pub mod Conservation
pub mod Inversion
pub mod Laws
pub mod Operations
pub mod Alone
pub mod Online
pub mod Shows
use brale_miden_demo.Base.{ℕ, ◌+◌, ◌-◌, ◌≤◌, Bool, List, [], ◌∷◌, ◌++◌, ◌≡◌, All, Eq, if◌then◌else◌}

-- A note for an account: to be paid into its vault, or to be burnt.
pub record Note (Account : Type 0) : Type 0 where
  pub owner : Account
  pub amount : ℕ
  pub burns : Bool

pub record Ledger (Account : Type 0) : Type 0 where
  pub supply : ℕ
  pub vaults : List (Account × ℕ)
  pub notes : List (Note Account)

-- A transaction: a note of new tokens, a note from the executor's vault, or the consumption of notes.
pub data Order (Account : Type 0) : Type 0 where
  issue output : Note Account → Order Account
  consume : List (Note Account) → Order Account

-- What consuming notes pays into the vault, and what it burns.
abbrev pub paid : {Account : Type 0} → List (Note Account) → ℕ
paid [] = 0
paid (n ∷ notes) = (if n.burns then 0 else n.amount) + paid notes

abbrev pub burnt : {Account : Type 0} → List (Note Account) → ℕ
burnt [] = 0
burnt (n ∷ notes) = (if n.burns then n.amount else 0) + burnt notes

-- Notes that are taken out of a list one by one, and the rest.
abbrev pub Takes :
    {Account : Type 0} → List (Note Account) → List (Note Account) → List (Note Account) → Type 0
Takes [] notes rest = rest ≡ notes
Takes {Account = Account} (n ∷ taken) notes rest =
    (before : List (Note Account)) × (after : List (Note Account)) × (notes ≡ before ++ (n ∷ after))
    × Takes taken (before ++ after) rest

module _ {Account : Type 0} ⦃e : Eq Account⦄ where
  abbrev pub balance : Account → List (Account × ℕ) → ℕ
  balance id [] = 0
  balance id ((j, n) ∷ vaults) = if e.beq id j then n else balance id vaults

  abbrev pub credit : Account → ℕ → List (Account × ℕ) → List (Account × ℕ)
  credit id n [] = (id, n) ∷ []
  credit id n ((j, m) ∷ vaults) =
      if e.beq id j then (j, m + n) ∷ vaults else (j, m) ∷ credit id n vaults

  abbrev pub debit : Account → ℕ → List (Account × ℕ) → List (Account × ℕ)
  debit id n [] = []
  debit id n ((j, m) ∷ vaults) =
      if e.beq id j then (j, m - n) ∷ vaults else (j, m) ∷ debit id n vaults

  -- One transaction of an issuer's token, by the account that executes it; only the issuer issues.
  pub data Step (issuer id : Account) (o : Order Account) (l l' : Ledger Account) : Type 0 where
    issued :
        (n : Note Account)
        → o ≡ issue n
        → id ≡ issuer
        → l' ≡ record l { supply = l.supply + n.amount; notes = l.notes ++ (n ∷ []) }
        → Step issuer id o l l'
    sent :
        (n : Note Account)
        → o ≡ output n
        → n.amount ≤ balance id l.vaults
        → l' ≡ record l { vaults = debit id n.amount l.vaults; notes = l.notes ++ (n ∷ []) }
        → Step issuer id o l l'
    consumed :
        (taken rest : List (Note Account))
        → o ≡ consume taken
        → Takes taken l.notes rest
        → All (λ n. n.owner ≡ id) taken
        → burnt taken ≤ l.supply
        → l' ≡ record {
          supply = l.supply - burnt taken;
          vaults = credit id (paid taken) l.vaults;
          notes = rest;
        }
        → Step issuer id o l l'

  -- Any transactions, one after the other.
  pub data Reach (issuer : Account) (l : Ledger Account) : Ledger Account → Type 0 where
    here : Reach issuer l l
    next :
        {m n : Ledger Account} (id : Account) (o : Order Account)
        → Reach issuer l m
        → Step issuer id o m n
        → Reach issuer l n
