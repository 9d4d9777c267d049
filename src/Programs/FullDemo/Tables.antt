-- ===== src/Programs/FullDemo/Tables.antt =====
-- The tables that the demo prints of the ledger of its token, in their order.
use brale_miden_demo.Base.{
  ℕ, ◌≡◌, ◌∙◌, ap, subst, [], ◌∷◌, ◌++◌, append_assoc, List, inl, inr, ok, Result-cases, arith,
}
use brale_miden_demo.Text.{Str, text}
use brale_miden_demo.Crypto.{Crypto}
use brale_miden_demo.Client.{Client}
use brale_miden_demo.Operations.Monad.{World, Action, ◌>>◌, println}
use brale_miden_demo.Operations.Calls.{Stable, Keeps, println-Keeps}
use brale_miden_demo.Ledger.{Ledger}
use brale_miden_demo.Ledger.Laws.{Laws}
use brale_miden_demo.Ledger.Alone.{Alone}
use brale_miden_demo.Ledger.Operations.{seen}
use brale_miden_demo.Display.BalanceTable.{print_balance_table}
use brale_miden_demo.Programs.FullDemo.{heading}
use brale_miden_demo.Programs.FullDemo.Moves.{Moves}
use brale_miden_demo.Programs.FullDemo.Quiet.{println-Moves, heading-Moves}

-- The blocks were printed in this order from the last one back.
abbrev pub Listed : List (List Str) → List Str → Type 0
Listed [] out = Unit
Listed (t ∷ ts) out =
    (before : List Str) × (after : List Str) × (out ≡ before ++ (t ++ after)) × Listed ts before

Listed-append :
    (ts : List (List Str)) (out more : List Str) → Listed ts out → Listed ts (out ++ more)
Listed-append [] out more h = tt
Listed-append (t ∷ ts) out more (before, after, e, h) = (
  before,
  after ++ more,
  ap (λ l. l ++ more) e
      ∙ (append_assoc before (t ++ after) more ∙ ap (λ l. before ++ l) (append_assoc t after more)),
  h,
)

-- The table of the token's supply and of the two wallets.
abbrev pub table : ℕ → ℕ → ℕ → List Str
table = print_balance_table (text "USDB")

-- The tables after the mint, and after the transfer.
abbrev pub one_table : List (List Str)
one_table = table 1000 1000 0 ∷ []

abbrev pub two_tables : List (List Str)
two_tables = table 1000 700 300 ∷ one_table

module _ (C : Crypto) (K : Client C) where
  -- From worlds of which one holds, an action that returns without an error leaves one of which the
  -- other does.
  pub record Ends {T : Type 0} (m : Action K.State T) (P Q : World K.State → Type 0) : Type 0 where
    pub holds : (a : T) (w w' : World K.State) → m w ≡ (ok a, w') → P w → Q w'

  pub then-Ends :
      {T U : Type 0} (m : Action K.State T) (k : Action K.State U) (P R Q : World K.State → Type 0)
      → Ends m P R
      → Ends k R Q
      → Ends (m >> k) P Q
  then-Ends m k P R Q hm hk = record {
    holds = λ b w w' h p. elim (Result-cases (m w).0) [
      | inl (a, ea) ↦
          hk.holds b (m w).1 w' (ground arith) (hm.holds a w (m w).1 (λ i. (ea i, (m w).1)) p)
      | inr (x, ex) ↦ absurd (ground arith)
    ];
  }

  abbrev pub Prints : List (List Str) → World K.State → Type 0
  Prints ts w = Listed ts w.out

  pub Prints-Stable : (ts : List (List Str)) → Stable C K (Prints ts)
  Prints-Stable ts = record {
    called = λ w s c h. h;
    printed = λ w line h. Listed-append ts w.out (line ∷ []) h;
  }

  heading-Keeps :
      (ts : List (List Str)) (line : Str) → Keeps C K (Prints ts) (Prints-Stable ts) (heading line)
  heading-Keeps ts line = record { holds = λ w h. Listed-append ts w.out ([] ∷ line ∷ []) h }

module _ (C : Crypto) (K : Client C) (issuer : K.AccountId) (H : Laws C K issuer)
    (A : Alone C K issuer H) where
  -- The ledger, and the blocks that were printed so far.
  abbrev pub At : Ledger K.AccountId → List (List Str) → World K.State → Type 0
  At l ts w = (seen C K issuer H w ≡ l) × Listed ts w.out

  pub Moves-Ends :
      {T : Type 0} (m : Action K.State T) (l l' : Ledger K.AccountId) (ts : List (List Str))
      → Moves C K issuer H A m l l'
      → Keeps C K (Prints C K ts) (Prints-Stable C K ts) m
      → Ends C K m (At l ts) (At l' ts)
  Moves-Ends m l l' ts moves keeps = record {
    holds = λ a w w' h (e, p).
        (moves.holds a w w' h e, subst (λ q. Listed ts q.1.out) h (keeps.holds w p));
  }

  -- A line that the demo prints, and a line after an empty one.
  pub line-Ends :
      (line : Str) (l : Ledger K.AccountId) (ts : List (List Str))
      → Ends C K (println line) (At l ts) (At l ts)
  line-Ends line l ts =
      Moves-Ends (println line) l l ts (println-Moves C K issuer H A line l)
        (println-Keeps C K (Prints C K ts) (Prints-Stable C K ts) line)

  pub heading-Ends :
      (line : Str) (l : Ledger K.AccountId) (ts : List (List Str))
      → Ends C K (heading line) (At l ts) (At l ts)
  heading-Ends line l ts =
      Moves-Ends (heading line) l l ts (heading-Moves C K issuer H A line l)
        (heading-Keeps C K ts line)

  -- The lines were printed last, and the blocks before them.
  abbrev pub Last : Ledger K.AccountId → List (List Str) → List Str → World K.State → Type 0
  Last l ts lines w =
      (seen C K issuer H w ≡ l) × (before : List Str) × (w.out ≡ before ++ lines) × Listed ts before
