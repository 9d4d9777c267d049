-- ===== src/Ledger/Alone/Owned.antt =====
-- The notes of a list that are for one account.
use brale_miden_demo.Base.{
  List, [], ◌∷◌, ◌++◌, ◌≡◌, refl, sym, ◌∙◌, ap, subst, true, false, Bool-cases, All, Eq, inl, inr,
  arith,
}
use brale_miden_demo.Ledger.{Note, Takes}
use brale_miden_demo.Ledger.Alone.{own}

module _ {Account : Type 0} where
  own-head :
      (e : Eq Account) (id : Account) (n : Note Account) (notes : List (Note Account))
      → e.beq id n.owner ≡ true
      → own e id (n ∷ notes) ≡ n ∷ own e id notes
  own-head e id n notes h = ground arith

  own-tail :
      (e : Eq Account) (id : Account) (n : Note Account) (notes : List (Note Account))
      → e.beq id n.owner ≡ false
      → own e id (n ∷ notes) ≡ own e id notes
  own-tail e id n notes h = ground arith

  Takes-skip :
      (m : Note Account) (taken notes rest : List (Note Account))
      → Takes taken notes rest
      → Takes taken (m ∷ notes) (m ∷ rest)
  Takes-skip m [] notes rest h = ap (λ l. m ∷ l) h
  Takes-skip m (n ∷ taken) notes rest (before, after, split, h) =
      (m ∷ before, after, ap (λ l. m ∷ l) split, Takes-skip m taken (before ++ after) rest h)

  -- The notes for an account can be taken.
  pub own-Takes :
      (e : Eq Account) (id : Account) (notes : List (Note Account))
      → (rest : List (Note Account)) × Takes (own e id notes) notes rest
        × All (λ n. n.owner ≡ id) (own e id notes)
  own-Takes e id [] = ([], refl, tt)
  own-Takes e id (n ∷ notes) =
      let (rest, takes, owns) = own-Takes e id notes in
      elim (Bool-cases (e.beq id n.owner)) [
        | inl h ↦
            subst
              (λ t. (r : List (Note Account)) × Takes t (n ∷ notes) r × All (λ n. n.owner ≡ id) t)
              (sym (own-head e id n notes h))
              (rest, ([], notes, refl, takes), (sym ((e.beq_iff id n.owner).0 h), owns))
        | inr h ↦
            subst
              (λ t. (r : List (Note Account)) × Takes t (n ∷ notes) r × All (λ n. n.owner ≡ id) t)
              (sym (own-tail e id n notes h))
              (n ∷ rest, Takes-skip n (own e id notes) notes rest takes, owns)
      ]

  -- A note for an account is among its notes.
  pub own-last :
      (e : Eq Account) (id : Account) (notes : List (Note Account)) (n : Note Account)
      → e.beq id n.owner ≡ true
      → (m : Note Account) × (rest : List (Note Account)) × (own e id (notes ++ (n ∷ []))
          ≡ m ∷ rest)
  own-last e id [] n h = (n, [], own-head e id n [] h)
  own-last e id (m ∷ notes) n h = elim (Bool-cases (e.beq id m.owner)) [
    | inl y ↦ (m, own e id (notes ++ (n ∷ [])), own-head e id m (notes ++ (n ∷ [])) y)
    | inr y ↦
        let (k, rest, found) = own-last e id notes n h in
        (k, rest, own-tail e id m (notes ++ (n ∷ [])) y ∙ found)
  ]
