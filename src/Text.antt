-- ===== src/Text.antt =====
-- Rust's `str` as the list of its code points, with what the sources use of it: the length in
-- bytes, byte slices, and padding on the right by `format!`.
pub mod Laws
use Prim.Native.Char.{code}
use brale_miden_demo.Base.{
  ℕ, suc, ◌+◌, ◌-◌, String, List, [], ◌∷◌, ◌++◌, Option, none, some, length, replicate, ltb, ◌==◌,
  if◌then◌else◌,
}

abbrev pub Str : Type 0
Str = List ℕ

-- The code points of a literal.
abbrev pub text : String → Str
text String.[] = []
text (String.◌∷◌ c s) = code c ∷ text s

-- `char::len_utf8`
abbrev pub char_len : ℕ → ℕ
char_len c = if ltb c 0x80 then 1 else if ltb c 0x800 then 2 else if ltb c 0x10000 then 3 else 4

-- `str::len`: the length in bytes.
abbrev pub len : Str → ℕ
len [] = 0
len (c ∷ s) = char_len c + len s

-- `{:f<width$}`: the width counts characters, and a text that is longer stays whole.
abbrev pub pad_right : ℕ → ℕ → Str → Str
pad_right fill width s = s ++ replicate (width - length s) fill

abbrev pub pad : ℕ → Str → Str
pad = pad_right b' '

-- `(&s[..n], &s[n..])`; `none` where `n` is past the end or no character boundary, where Rust
-- panics.
unfoldable pub split_at : Str → ℕ → Option (Str × Str)
split_at [] n = if n == 0 then some ([], []) else none
split_at (c ∷ s) n =
    let rest : Option (Str × Str) = elim (split_at s (n - char_len c)) [
      | none ↦ none
      | some (a, b) ↦ some (c ∷ a, b)
    ] in
    if n == 0 then some ([], c ∷ s) else if ltb n (char_len c) then none else rest
