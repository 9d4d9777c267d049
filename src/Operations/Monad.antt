-- ===== src/Operations/Monad.antt =====
-- An operation: it may fail, it changes the client, and it prints. What was done before a failure
-- stays done. The structured log of `tracing` is left out: no result depends on it.
use brale_miden_demo.Base.{List, [], ◌∷◌, ◌++◌, Option, none, some, Result, ok, err, map_err}
use brale_miden_demo.Text.{Str}
use brale_miden_demo.Client.{Error}

pub record World (S : Type 0) : Type 0 where
  pub state : S
  pub out : List Str

abbrev pub Action : Type 0 → Type 0 → Type 0
Action S A = World S → Result Error A × World S

infixl 5 ◌>>=◌ ◌>>◌
abbrev pub ◌>>=◌ : {S A B : Type 0} → Action S A → (A → Action S B) → Action S B
◌>>=◌ m f w = let (r, w') = m w in elim r [ ok a ↦ f a w' | err e ↦ (err e, w') ]

abbrev pub ◌>>◌ : {S A B : Type 0} → Action S A → Action S B → Action S B
m >> k = m >>= λ _. k

module _ {S A : Type 0} where
  abbrev pub pure : A → Action S A
  pure a w = (ok a, w)

  -- `bail!`
  abbrev pub bail : Str → Action S A
  bail message w = (err (message ∷ []), w)

  -- A call that needs no client.
  abbrev pub lift : Result Error A → Action S A
  lift r w = (r, w)

  -- `Result::context`
  abbrev pub context : Str → Action S A → Action S A
  context message m w = let (r, w') = m w in (map_err (λ e. message ∷ e) r, w')

  -- `Option::context`
  abbrev pub some_or : Str → Option A → Action S A
  some_or message none = bail message
  some_or message (some a) = pure a

  -- A method on `&mut Client`, and one on `&Client`.
  abbrev pub call : (S → Result Error A × S) → Action S A
  call f w = let (r, s) = f w.state in (r, record w { state = s })

  abbrev pub query : (S → Result Error A) → Action S A
  query f w = (f w.state, w)

abbrev pub println : {S : Type 0} → Str → Action S (Unit {0})
println line w = (ok tt, record w { out = w.out ++ (line ∷ []) })
