-- ===== src/Ledger/Conservation.antt =====
-- No transaction changes what the supply and the holdings differ by.
use brale_miden_demo.Base.{ℕ, ◌+◌, ◌≤◌, List, [], ◌∷◌, ◌++◌, ◌≡◌, Eq, arith}
use brale_miden_demo.Ledger.{
  Note, Ledger, Order, Step, issued, sent, consumed, paid, burnt, Takes, balance, credit, debit,
}

module _ {Account : Type 0} where
  abbrev pub in_vaults : List (Account × ℕ) → ℕ
  in_vaults [] = 0
  in_vaults ((_, n) ∷ vaults) = n + in_vaults vaults

  abbrev pub in_notes : List (Note Account) → ℕ
  in_notes [] = 0
  in_notes (n ∷ notes) = n.amount + in_notes notes

  -- The whole supply is in vaults or in notes.
  abbrev pub IsConserved : Ledger Account → Type 0
  IsConserved l = l.supply ≡ in_vaults l.vaults + in_notes l.notes

  in_notes-append : (xs ys : List (Note Account)) → in_notes (xs ++ ys) ≡ in_notes xs + in_notes ys
  in_notes-append [] ys = omega arith
  in_notes-append (n ∷ xs) ys = omega (arith, in_notes-append xs ys)

  pub in_notes-parts : (notes : List (Note Account)) → in_notes notes ≡ paid notes + burnt notes
  in_notes-parts [] = omega arith
  in_notes-parts (n ∷ notes) = ground (arith, in_notes-parts notes)

  pub in_notes-Takes :
      (taken notes rest : List (Note Account))
      → Takes taken notes rest
      → in_notes notes ≡ in_notes taken + in_notes rest
  in_notes-Takes [] notes rest h = ground arith
  in_notes-Takes (n ∷ taken) notes rest (before, after, e, h) = ground (
    arith,
    in_notes-append before (n ∷ after),
    in_notes-append before after,
    in_notes-Takes taken (before ++ after) rest h,
  )

module _ {Account : Type 0} ⦃e : Eq Account⦄ where
  in_vaults-credit :
      (id : Account) (n : ℕ) (vaults : List (Account × ℕ))
      → in_vaults (credit id n vaults) ≡ in_vaults vaults + n
  in_vaults-credit id n [] = omega arith
  in_vaults-credit id n (v ∷ vaults) = ground (arith, in_vaults-credit id n vaults)

  in_vaults-debit :
      (id : Account) (n : ℕ) (vaults : List (Account × ℕ))
      → n ≤ balance id vaults
      → in_vaults (debit id n vaults) + n ≡ in_vaults vaults
  in_vaults-debit id n [] h = omega arith
  in_vaults-debit id n (v ∷ vaults) h = ground (arith, in_vaults-debit id n vaults)

  pub Step-IsConserved :
      {issuer : Account} (id : Account) (o : Order Account) (l l' : Ledger Account)
      → Step issuer id o l l'
      → IsConserved l
      → IsConserved l'
  Step-IsConserved id o l l' (issued n eo own el) h =
      ground (arith, in_notes-append l.notes (n ∷ []))
  Step-IsConserved id o l l' (sent n eo le el) h =
      ground (arith, in_notes-append l.notes (n ∷ []), in_vaults-debit id n.amount l.vaults le)
  Step-IsConserved id o l l' (consumed taken rest eo takes owned le el) h = ground (
    arith,
    in_notes-Takes taken l.notes rest takes,
    in_notes-parts taken,
    in_vaults-credit id (paid taken) l.vaults,
  )
