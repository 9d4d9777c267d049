-- ===== src/Ledger/Inversion.antt =====
-- What a transaction leaves, by what it was ordered to do.
use brale_miden_demo.Base.{◌+◌, ◌-◌, List, [], ◌∷◌, ◌++◌, ◌≡◌, sym, subst, ◌∙◌, Eq, arith}
use brale_miden_demo.Ledger.{
  Note, Ledger, issue, output, consume, Step, issued, sent, consumed, paid, burnt, Takes, credit,
  debit,
}

module _ {Account : Type 0} where
  single :
      (n m : Note Account) (before after : List (Note Account))
      → n ∷ [] ≡ before ++ (m ∷ after)
      → before ++ after ≡ []
  single n m [] after h = ground arith
  single n m (x ∷ []) after h = absurd (ground arith)
  single n m (x ∷ y ∷ before) after h = absurd (ground arith)

  Takes-single :
      (n : Note Account) (notes rest : List (Note Account))
      → notes ≡ n ∷ []
      → Takes (n ∷ []) notes rest
      → rest ≡ []
  Takes-single n notes rest e (before, after, split, h) =
      h ∙ single n n before after (sym e ∙ split)

module _ {Account : Type 0} ⦃e : Eq Account⦄ {issuer : Account} (id : Account)
    (l l' : Ledger Account) where
  pub Step-issue :
      (n : Note Account)
      → Step issuer id (issue n) l l'
      → l' ≡ record l { supply = l.supply + n.amount; notes = l.notes ++ (n ∷ []) }
  Step-issue n (issued m o own h) = ground arith
  Step-issue n (sent m o le h) = absurd (ground arith)
  Step-issue n (consumed taken rest o takes owned le h) = absurd (ground arith)

  pub Step-output :
      (n : Note Account)
      → Step issuer id (output n) l l'
      → l' ≡ record l { vaults = debit id n.amount l.vaults; notes = l.notes ++ (n ∷ []) }
  Step-output n (issued m o own h) = absurd (ground arith)
  Step-output n (sent m o le h) = ground arith
  Step-output n (consumed taken rest o takes owned le h) = absurd (ground arith)

  -- A consumption of the only note.
  pub Step-consume :
      (n : Note Account)
      → l.notes ≡ n ∷ []
      → Step issuer id (consume (n ∷ [])) l l'
      → l' ≡ record {
        supply = l.supply - burnt (n ∷ []);
        vaults = credit id (paid (n ∷ [])) l.vaults;
        notes = [];
      }
  Step-consume n only (issued m o own h) = absurd (ground arith)
  Step-consume n only (sent m o le h) = absurd (ground arith)
  Step-consume n only (consumed taken rest o takes owned le h) =
      let same : taken ≡ n ∷ [] = ground arith in
      let none_left : rest ≡ [] =
        Takes-single n l.notes rest only (subst (λ t. Takes t l.notes rest) same takes) in
      h ∙ (λ i. record {
        supply = l.supply - burnt (same i);
        vaults = credit id (paid (same i)) l.vaults;
        notes = none_left i;
      })
