-- ===== src/Text/Laws.antt =====
-- Lengths of padded and of sliced texts.
use brale_miden_demo.Base.{
  ℕ, zero, suc, ◌-◌, ◌≤◌, ◌<◌, max, ◌≡◌, refl, [], ◌∷◌, some, length, length-append,
  length-replicate, All, arith, take, drop,
}
use brale_miden_demo.Text.{Str, len, pad_right, split_at}

-- A padded text has the width, or its own length if that is more.
pub length-pad_right :
    (fill width : ℕ) (s : Str) → length (pad_right fill width s) ≡ max width (length s)
length-pad_right fill width s =
    omega (arith, length-append s _, length-replicate (width - length s) fill)

pub length-pad_right_fits :
    (fill width : ℕ) (s : Str) → length s ≤ width → length (pad_right fill width s) ≡ width
length-pad_right_fits fill width s h = omega (arith, length-pad_right fill width s)

-- A text has at most as many characters as bytes.
pub length-le-len : (s : Str) → length s ≤ len s
length-le-len [] = omega arith
length-le-len (c ∷ s) = ground (arith, length-le-len s)

-- All characters take one byte.
abbrev pub IsAscii : Str → Type 0
IsAscii = All (λ c. c < 0x80)

pub len-eq-length : (s : Str) → IsAscii s → len s ≡ length s
len-eq-length [] h = refl
len-eq-length (c ∷ s) h = ground (arith, len-eq-length s h.1)

-- In an ASCII text every byte offset is a character boundary.
pub split_at-ascii :
    (s : Str) (n : ℕ) → IsAscii s → n ≤ length s → split_at s n ≡ some (take n s, drop n s)
unfolding split_at
split_at-ascii [] zero h le = refl
split_at-ascii [] (suc n) h le = absurd (omega arith)
split_at-ascii (c ∷ s) zero h le = refl
split_at-ascii (c ∷ s) (suc n) h le = ground (arith, split_at-ascii s n h.1)
