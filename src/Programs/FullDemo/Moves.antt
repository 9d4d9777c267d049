-- ===== src/Programs/FullDemo/Moves.antt =====
-- Actions that take the ledger of a token from one state to another, where nobody else acts on it.
use brale_miden_demo.Base.{◌≡◌, sym, ◌∙◌, ap, subst, inl, inr, ok, Result-cases, arith}
use brale_miden_demo.Crypto.{Crypto}
use brale_miden_demo.Client.{Client}
use brale_miden_demo.Operations.Monad.{World, Action, ◌>>=◌}
use brale_miden_demo.Operations.Notes.{Messages, consume_available}
use brale_miden_demo.Ledger.{Ledger, Order, consume, Step}
use brale_miden_demo.Ledger.Laws.{Laws}
use brale_miden_demo.Ledger.Alone.{own, Alone, consume_available-own}
use brale_miden_demo.Ledger.Operations.{seen, Led, Ordered}

module _ (C : Crypto) (K : Client C) (issuer : K.AccountId) (H : Laws C K issuer)
    (A : Alone C K issuer H) where
  -- An action that, if it returns without an error, takes the ledger from one to the other.
  pub record Moves {T : Type 0} (m : Action K.State T) (l l' : Ledger K.AccountId) : Type 0 where
    pub holds :
        (a : T) (w w' : World K.State)
        → m w ≡ (ok a, w')
        → seen C K issuer H w ≡ l
        → seen C K issuer H w' ≡ l'

  pub then-Moves :
      {T U : Type 0} (m : Action K.State T) (f : T → Action K.State U) (l k l' : Ledger K.AccountId)
      → Moves m l k
      → ((a : T) → Moves (f a) k l')
      → Moves (m >>= f) l l'
  then-Moves m f l k l' hm hf = record {
    holds = λ b w w' h e. elim (Result-cases (m w).0) [
      | inl (a, ea) ↦
          (hf a).holds b (m w).1 w' (ground arith) (hm.holds a w (m w).1 (λ i. (ea i, (m w).1)) e)
      | inr (x, ex) ↦ absurd (ground arith)
    ];
  }

  pub quiet-Moves :
      {T : Type 0} (m : Action K.State T) (l : Ledger K.AccountId)
      → ((w : World K.State) → seen C K issuer H (m w).1 ≡ seen C K issuer H w)
      → Moves m l l
  quiet-Moves m l quiet = record {
    holds = λ a w w' h e. ap (λ p. seen C K issuer H p.1) (sym h) ∙ (quiet w ∙ e);
  }

  -- A submission that is one transaction of the ledger.
  pub Ordered-Moves :
      (m : Action K.State (Unit {0})) (id : K.AccountId) (o : Order K.AccountId)
      (l l' : Ledger K.AccountId)
      → ((w : World K.State) → Led C K issuer H m (Ordered C K issuer H id o) w)
      → ((k : Ledger K.AccountId) → Step ⦃e = H.account_eq⦄ issuer id o l k → k ≡ l')
      → Moves m l l'
  Ordered-Moves m id o l l' led det = record {
    holds = λ a w w' h e. det (seen C K issuer H w') (
        subst (λ x. Step ⦃e = H.account_eq⦄ issuer id o x (seen C K issuer H w')) e
          (subst (λ p. Ordered C K issuer H id o (seen C K issuer H w) p.0 (seen C K issuer H p.1))
            h (led w)));
  }

  -- A consumption of the only note, which is for the account.
  pub Own-Moves :
      (m : Messages) (id : K.AccountId) (l l' : Ledger K.AccountId)
      → ((k : Ledger K.AccountId)
          → Step ⦃e = H.account_eq⦄ issuer id (consume (own H.account_eq id l.notes)) l k
          → k ≡ l')
      → Moves (consume_available C K m id) l l'
  Own-Moves m id l l' det = record {
    holds = λ a w w' h e. det (seen C K issuer H w') (
        subst
          (λ (x : Ledger K.AccountId).
            Step ⦃e = H.account_eq⦄ issuer id (consume (own H.account_eq id x.notes)) x
              (seen C K issuer H w'))
          e (consume_available-own C K issuer H A m id w w' h));
  }
