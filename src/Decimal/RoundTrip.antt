-- ===== src/Decimal/RoundTrip.antt =====
-- What is printed is read back.
use native.Mathlib.Nat.{pow-suc}
use brale_miden_demo.Base.{
  ℕ, zero, suc, ◌+◌, ◌/◌, ◌%◌, ◌^◌, ◌≤◌, ◌<◌, ◌≡◌, refl, ap, ◌∙◌, [], ◌∷◌, ok, arith,
}
use brale_miden_demo.Text.{Str}
use brale_miden_demo.Decimal.{digits, to_string, scan, parse}

-- Reading the last digit of `n` after the digits before it gives `n`.
scan_last :
    (most n : ℕ) (out : Str)
    → n ≤ most
    → scan most ((b'0' + n % 10) ∷ out) (n / 10) ≡ scan most out n
unfolding scan
scan_last most n out h = ground arith

scan-digits :
    (f most n : ℕ) (out : Str)
    → n < 10 ^ f
    → n ≤ most
    → scan most (digits f n out) 0 ≡ scan most out n
unfolding digits scan
scan-digits zero most n out lt le = ap (scan most out) (omega arith)
scan-digits (suc f) most n out lt le = ground (
  arith,
  pow-suc 10 f,
  scan_last most n out le,
  scan-digits f most (n / 10) ((b'0' + n % 10) ∷ out),
)

abbrev StartsDigit : Str → Type 0
StartsDigit [] = ⊥
StartsDigit (c ∷ s) = (b'0' ≤ c) × (c ≤ b'9')

digits-StartsDigit : (f n : ℕ) (out : Str) → StartsDigit (digits (suc f) n out)
unfolding digits
digits-StartsDigit zero n out = ground arith
digits-StartsDigit (suc f) n out =
    ground (arith, digits-StartsDigit f (n / 10) ((b'0' + n % 10) ∷ out))

-- Without a sign `parse` is its loop.
parse-scan : (most : ℕ) (s : Str) → StartsDigit s → parse most s ≡ scan most s 0
unfolding parse
parse-scan most [] h = absurd h
parse-scan most (c ∷ []) h = ground arith
parse-scan most (c ∷ d ∷ s) h = ground arith

scan-nil : (most n : ℕ) → scan most [] n ≡ ok n
unfolding scan
scan-nil most n = refl

-- A number that fits the type and has at most twenty digits is read back from its print.
pub parse-to_string : (most n : ℕ) → n ≤ most → n < 10 ^ 20 → parse most (to_string n) ≡ ok n
unfolding to_string
parse-to_string most n le lt =
    parse-scan most (digits 20 n []) (digits-StartsDigit 19 n [])
    ∙ scan-digits 20 most n [] lt le
    ∙ scan-nil most n
