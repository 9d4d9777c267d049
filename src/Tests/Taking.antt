-- ===== src/Tests/Taking.antt =====
-- Notes taken out of a list, by evaluation.
use brale_miden_demo.Base.{
  ℕ, ◌+◌, ◌<◌, Bool, true, false, List, [], ◌∷◌, ◌++◌, ◌≡◌, refl, sym, subst, Bool-cases, ◌&&◌,
  ◌==◌, All, inl, inr, Option, none, some, if◌then◌else◌, Option-cases, arith,
}
use brale_miden_demo.Ledger.{Note, Takes}

abbrev pub same : Note ℕ → Note ℕ → Bool
same n m =
    (n.owner == m.owner)
    && ((n.amount == m.amount) && (if n.burns then m.burns else if m.burns then false else true))

same-eq : (n m : Note ℕ) → same n m ≡ true → n ≡ m
same-eq n m h = ground arith

-- A list of notes without one of them, and notes of an account taken out of a list.
abbrev pub remove : Note ℕ → List (Note ℕ) → Option (List (Note ℕ))
remove n [] = none
remove n (m ∷ notes) = elim (same n m) [
  | true ↦ some notes
  | false ↦ elim (remove n notes) [ none ↦ none | some rest ↦ some (m ∷ rest) ]
]

remove-split :
    (n : Note ℕ) (notes rest : List (Note ℕ))
    → remove n notes ≡ some rest
    → (before : List (Note ℕ)) × (after : List (Note ℕ)) × (notes ≡ before ++ (n ∷ after))
      × (rest ≡ before ++ after)
remove-split n [] rest h = absurd (ground arith)
remove-split n (m ∷ notes) rest h = elim (Bool-cases (same n m)) [
  | inl e ↦ ([], notes, (λ i. sym (same-eq n m e) i ∷ notes), ground arith)
  | inr e ↦ elim (Option-cases (remove n notes)) [
    | inl absent ↦ absurd (ground arith)
    | inr (k, found) ↦
        let (before, after, split, joined) = remove-split n notes k found in
        (m ∷ before, after, ground arith, ground arith)
  ]
]

abbrev pub take : ℕ → List (Note ℕ) → List (Note ℕ) → Option (List (Note ℕ))
take id [] notes = some notes
take id (n ∷ taken) notes = elim (n.owner == id) [
  | false ↦ none
  | true ↦ elim (remove n notes) [ none ↦ none | some rest ↦ take id taken rest ]
]

pub take-Takes :
    (id : ℕ) (taken notes rest : List (Note ℕ))
    → take id taken notes ≡ some rest
    → Takes taken notes rest × All (λ n. n.owner ≡ id) taken
take-Takes id [] notes rest h = (ground arith, tt)
take-Takes id (n ∷ taken) notes rest h = elim (Option-cases (remove n notes)) [
  | inl absent ↦ absurd (ground arith)
  | inr (k, found) ↦
      let (before, after, split, joined) = remove-split n notes k found in
      let (takes, owns) = take-Takes id taken k rest (ground arith) in
      ((before, after, split, subst (λ x. Takes taken x rest) joined takes), (ground arith, owns))
]

-- How often a note stands in a list.
abbrev count : Note ℕ → List (Note ℕ) → ℕ
count x [] = 0
count x (m ∷ notes) = (if same x m then 1 else 0) + count x notes

same-same : (n : Note ℕ) → same n n ≡ true
same-same n = ground arith

count-append : (x : Note ℕ) (l k : List (Note ℕ)) → count x (l ++ k) ≡ count x l + count x k
count-append x [] k = omega arith
count-append x (m ∷ l) k = omega (arith, count-append x l k)

-- A note that stands in a list is found, and the other notes stay.
remove-found :
    (n : Note ℕ) (notes : List (Note ℕ))
    → 0 < count n notes
    → (k : List (Note ℕ)) × (remove n notes ≡ some k)
remove-found n [] h = absurd (omega arith)
remove-found n (m ∷ notes) h = elim (Bool-cases (same n m)) [
  | inl e ↦ (notes, ground arith)
  | inr e ↦ let (k, found) = remove-found n notes (ground arith) in (m ∷ k, ground arith)
]

count-remove :
    (x n : Note ℕ) (notes k : List (Note ℕ))
    → remove n notes ≡ some k
    → count x notes ≡ (if same x n then 1 else 0) + count x k
count-remove x n notes k h =
    let (before, after, split, joined) = remove-split n notes k h in
    ground (arith, count-append x before (n ∷ after), count-append x before after)

-- What can be taken out of a list can be taken out of any list with the same notes.
pub take-found :
    (id : ℕ) (taken notes notes' rest : List (Note ℕ))
    → Takes taken notes rest
    → All (λ n. n.owner ≡ id) taken
    → ((x : Note ℕ) → count x notes ≡ count x notes')
    → (k : List (Note ℕ)) × (take id taken notes' ≡ some k)
take-found id [] notes notes' rest takes owns same_notes = (notes', refl)
take-found id (n ∷ taken) notes notes' rest (before, after, split, takes) (owned, owns) same_notes =
    let (k, found) =
      remove-found n notes'
        (ground (arith, same_notes n, same-same n, count-append n before (n ∷ after))) in
    let (rest', more) = take-found id taken (before ++ after) k rest takes owns (λ x. ground (
      arith,
      same_notes x,
      count-remove x n notes' k found,
      count-append x before (n ∷ after),
      count-append x before after,
    )) in
    (rest', ground arith)
