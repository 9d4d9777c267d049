-- ===== src/Operations/Calls.antt =====
-- What the operations do to a client is a sequence of calls of its methods, and what every call keeps
-- is kept by an operation.
pub mod Preserving
use brale_miden_demo.Base.{
  [], ◌∷◌, ◌++◌, ℕ, zero, suc, ◌+◌, Bool, List, ◌≡◌, refl, sym, subst, ap, inl, inr, true, false,
  ◌==◌, is_empty, ok, err, Result, Result-cases, arith,
}
use brale_miden_demo.Text.{Str, text}
use brale_miden_demo.Crypto.{Crypto}
use brale_miden_demo.Client
use brale_miden_demo.Client.{Client, Error}
use brale_miden_demo.Operations.Monad.{
  World, Action, ◌>>=◌, ◌>>◌, pure, bail, lift, context, call, println,
}
use brale_miden_demo.Operations.Links.{submit}

module _ (C : Crypto) (K : Client C) where
  -- One call of a method that may change the state.
  pub data Call (s s' : K.State) : Type 0 where
    synced : s' ≡ (K.sync_state s).1 → Call s s'
    slept : (seconds : ℕ) → s' ≡ K.sleep seconds s → Call s s'
    drawn : s' ≡ (K.fill_bytes s).1 → Call s s'
    added :
        (account : K.Account) (overwrite : Bool)
        → s' ≡ (K.add_account account overwrite s).1
        → Call s s'
    built_mint :
        (asset : K.FungibleAsset) (target : K.AccountId) (type : Client.NoteType)
        → s' ≡ (K.build_mint_fungible_asset asset target type s).1
        → Call s s'
    built_pay :
        (assets : List K.FungibleAsset) (sender target : K.AccountId) (type : Client.NoteType)
        → s' ≡ (K.build_pay_to_id assets sender target type s).1
        → Call s s'
    built_burn :
        (sender issuer : K.AccountId) (asset : K.FungibleAsset) (attachment : K.NoteAttachment)
        → s' ≡ (K.create_burn_note sender issuer asset attachment s).1
        → Call s s'
    submitted :
        (id : K.AccountId) (request : K.TransactionRequest)
        → s' ≡ (K.submit_new_transaction id request s).1
        → Call s s'

  -- A predicate on states that every call keeps.
  abbrev pub Kept : (K.State → Type 0) → Type 0
  Kept P = (s s' : K.State) → Call s s' → P s → P s'

  -- A predicate on worlds that every call keeps, and every line that is printed.
  pub record Stable (P : World K.State → Type 0) : Type 0 where
    pub called :
        (w : World K.State) (s : K.State) → Call w.state s → P w → P (record w { state = s })
    pub printed :
        (w : World K.State) (line : Str) → P w → P (record w { out = w.out ++ (line ∷ []) })

  abbrev pub OnState : (K.State → Type 0) → World K.State → Type 0
  OnState P w = P w.state

  pub Kept-Stable : (P : K.State → Type 0) → Kept P → Stable (OnState P)
  Kept-Stable P kept = record { called = λ w s c h. kept w.state s c h; printed = λ w line h. h }

module _ (C : Crypto) (K : Client C) (P : World K.State → Type 0) (kept : Stable C K P) where
  pub record Keeps {T : Type 0} (m : Action K.State T) : Type 0 where
    pub holds : (w : World K.State) → P w → P (m w).1

  pub then-Keeps :
      {T U : Type 0} (m : Action K.State T) (f : T → Action K.State U)
      → Keeps m
      → ((a : T) → Keeps (f a))
      → Keeps (m >>= f)
  then-Keeps m f hm hf = record {
    holds = λ w h. elim (Result-cases (m w).0) [
      | inl (a, ea) ↦
          let e : (f a (m w).1).1 ≡ ((m >>= f) w).1 = ground arith in
          subst P e ((hf a).holds (m w).1 (hm.holds w h))
      | inr (x, ex) ↦ let e : (m w).1 ≡ ((m >>= f) w).1 = ground arith in subst P e (hm.holds w h)
    ];
  }

  pub next-Keeps :
      {T U : Type 0} (m : Action K.State T) (k : Action K.State U)
      → Keeps m
      → Keeps k
      → Keeps (m >> k)
  next-Keeps m k hm hk = then-Keeps m (λ _. k) hm (λ _. hk)

  pub quiet-Keeps :
      {T : Type 0} (m : Action K.State T) → ((w : World K.State) → (m w).1 ≡ w) → Keeps m
  quiet-Keeps m quiet = record { holds = λ w h. subst P (sym (quiet w)) h }

  pub call-Keeps :
      {T : Type 0} (message : Str) (f : K.State → Result Error T × K.State)
      → ((s : K.State) → Call C K s (f s).1)
      → Keeps (context message (call f))
  call-Keeps message f calls = record {
    holds = λ w h. kept.called w (f w.state).1 (calls w.state) h;
  }

  pub println-Keeps : (line : Str) → Keeps (println {S = K.State} line)
  println-Keeps line = record { holds = λ w h. kept.printed w line h }

  pub submit-Keeps :
      (failed : Str) (id : K.AccountId) (request : K.TransactionRequest)
      → Keeps (submit C K failed id request)
  unfolding submit
  submit-Keeps failed id request =
      then-Keeps _ _
        (call-Keeps failed (K.submit_new_transaction id request) (λ s. submitted id request refl))
        (λ tx. println-Keeps _)
