-- ===== src/Display/Layout.antt =====
-- The format strings that both tables share: a border line and a row of three cells.
use brale_miden_demo.Base.{
  ℕ, ◌+◌, ◌≤◌, ◌≡◌, [], ◌∷◌, ◌++◌, length, length-append, length-replicate, arith,
}
use brale_miden_demo.Text.{Str, text, pad, pad_right}
use brale_miden_demo.Text.Laws.{length-pad_right_fits}

-- U+2500, the horizontal line of a border.
abbrev pub line : ℕ
line = 0x2500

-- `format!("┌{:─<a$}┬{:─<b$}┬{:─<c$}┐", "", "", "")`, for the corners and crossings that are given.
unfoldable pub separator : ℕ → ℕ → ℕ → ℕ → ℕ → ℕ → Str
separator left cross right a b c =
    left
    ∷ (pad_right line a []
        ++ (cross ∷ (pad_right line b [] ++ (cross ∷ (pad_right line c [] ++ right ∷ [])))))

-- `"│ {}│ {}│ {}│"`
unfoldable pub row : Str → Str → Str → Str
row a b c = text "│ " ++ (a ++ (text "│ " ++ (b ++ (text "│ " ++ (c ++ text "│")))))

pub length-row : (a b c : Str) → length (row a b c) ≡ length a + length b + length c + 7
unfolding row
length-row a b c = simp length-append (omega arith)

-- Cells that fit their columns fill them.
pub length-row_padded :
    (wa wb wc : ℕ) (a b c : Str)
    → length a ≤ wa
    → length b ≤ wb
    → length c ≤ wc
    → length (row (pad wa a) (pad wb b) (pad wc c)) ≡ wa + wb + wc + 7
length-row_padded wa wb wc a b c ha hb hc = omega (
  arith,
  length-row (pad wa a) (pad wb b) (pad wc c),
  length-pad_right_fits b' ' wa a,
  length-pad_right_fits b' ' wb b,
  length-pad_right_fits b' ' wc c,
)

pub length-separator :
    (left cross right a b c : ℕ) → length (separator left cross right a b c) ≡ a + b + c + 4
unfolding separator
length-separator left cross right a b c = simp (length-append, length-replicate) (omega arith)
