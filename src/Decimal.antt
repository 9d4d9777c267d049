-- ===== src/Decimal.antt =====
-- `Display` and `FromStr` of Rust's unsigned integers, as the sources use them: `to_string` and
-- `format!` of amounts and counts, and `parse` of command-line arguments.
pub mod RoundTrip
use brale_miden_demo.Base.{
  ℕ, zero, suc, ◌+◌, ◌-◌, ◌*◌, ◌/◌, ◌%◌, ◌^◌, ◌≡◌, refl, [], ◌∷◌, Bool, Result, ok, err, ltb, leb,
  ◌==◌, ◌||◌, not, if◌then◌else◌,
}
use brale_miden_demo.Text.{Str, text}

-- The decimal digits of `n` in front of `out`, with one unit of fuel for each digit.
unfoldable pub digits : ℕ → ℕ → Str → Str
digits zero n out = out
digits (suc f) n out =
    let rest = digits f (n / 10) ((b'0' + n % 10) ∷ out) in
    if ltb n 10 then (b'0' + n) ∷ out else rest

-- A `u64` has at most twenty digits.
unfoldable pub to_string : ℕ → Str
to_string n = digits 20 n []

pub data IntErrorKind : Type 0 where
  empty invalid_digit pos_overflow : IntErrorKind

abbrev is_digit : ℕ → Bool
is_digit c = not (ltb c b'0' || ltb b'9' c)

-- The loop over the digits, with `checked_mul` and `checked_add` at the type's largest value.
unfoldable pub scan : ℕ → Str → ℕ → Result IntErrorKind ℕ
scan most [] n = ok n
scan most (c ∷ s) n =
    let rest = scan most s (n * 10 + (c - b'0')) in
    if is_digit c
    then (if leb (n * 10 + (c - b'0')) most then rest else err pos_overflow)
    else err invalid_digit

abbrev after_sign : Str → Str
after_sign [] = []
after_sign (c ∷ s) = if c == b'+' then s else c ∷ s

-- A lone `+` is left without digits, which is `InvalidDigit` and not `Empty`.
unfoldable pub parse : ℕ → Str → Result IntErrorKind ℕ
unfolding scan
parse most [] = err empty
parse most (c ∷ []) = if c == b'+' then err invalid_digit else scan most (c ∷ []) 0
parse most (c ∷ d ∷ s) = scan most (if c == b'+' then d ∷ s else c ∷ d ∷ s) 0

abbrev pub max_u8 : ℕ
max_u8 = 2 ^ 8 - 1

abbrev pub max_u64 : ℕ
max_u64 = 2 ^ 64 - 1

to_string-max_u64 : to_string max_u64 ≡ text "18446744073709551615"
unfolding to_string digits
to_string-max_u64 = refl

parse_overflow : parse max_u64 (text "18446744073709551616") ≡ err pos_overflow
unfolding parse
parse_overflow = refl

parse_plus : parse max_u64 (text "+7") ≡ ok 7
unfolding parse
parse_plus = refl
