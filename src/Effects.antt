-- ===== src/Effects.antt =====
-- Code that changes a state, may fail and may panic; what it did before stays done.
use brale_miden_demo.Base.{
  [], ◌∷◌, Option, none, some, Result, ok, err, map_err, Panics, returned, panicked,
}
use brale_miden_demo.Text.{Str}
use brale_miden_demo.Client.{Error}

abbrev pub Run : Type 0 → Type 0 → Type 0
Run S A = S → Panics (Result Error A) × S

infixl 5 ◌>>=◌ ◌>>◌
abbrev pub ◌>>=◌ : {S A B : Type 0} → Run S A → (A → Run S B) → Run S B
◌>>=◌ m f s =
    let (p, s) = m s in
    elim p [
      | returned (ok a) ↦ f a s
      | returned (err e) ↦ (returned (err e), s)
      | panicked ↦ (panicked, s)
    ]

abbrev pub ◌>>◌ : {S A B : Type 0} → Run S A → Run S B → Run S B
m >> k = m >>= λ _. k

abbrev in_context : {A : Type 0} → Str → Panics (Result Error A) → Panics (Result Error A)
in_context message (returned r) = returned (map_err (λ e. message ∷ e) r)
in_context message panicked = panicked

module _ {S A : Type 0} where
  abbrev pub pure : A → Run S A
  pure a s = (returned (ok a), s)

  -- `bail!`
  abbrev pub bail : Str → Run S A
  bail message s = (returned (err (message ∷ [])), s)

  -- A call that needs no state.
  abbrev pub lift : Result Error A → Run S A
  lift r s = (returned r, s)

  abbrev pub context : Str → Result Error A → Run S A
  context message r = lift (map_err (λ e. message ∷ e) r)

  -- `Result::context` on the result of a whole function.
  abbrev pub wrapped : Str → Run S A → Run S A
  wrapped message m s = let (p, s) = m s in (in_context message p, s)

  -- A call that changes the state, with a context for its failure.
  abbrev pub call : Str → (S → Result Error A × S) → Run S A
  call message f s = let (r, s) = f s in (returned (map_err (λ e. message ∷ e) r), s)

  -- A call that cannot fail.
  abbrev pub draw : (S → A × S) → Run S A
  draw f s = let (a, s) = f s in (returned (ok a), s)

  -- A call that panics on `none`, and one that may panic.
  abbrev pub unwrap : Option A → Run S A
  unwrap none s = (panicked, s)
  unwrap (some a) s = (returned (ok a), s)

  abbrev pub value : Panics A → Run S A
  value (returned a) s = (returned (ok a), s)
  value panicked s = (panicked, s)
