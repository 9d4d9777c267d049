-- ===== src/Display/BalanceTable/Widths.antt =====
-- How wide the printed lines are.
use brale_miden_demo.Base.{ℕ, ◌+◌, ◌-◌, ◌≤◌, [], ◌∷◌, map, ◌≡◌, refl, ap₂, arith, length}
use brale_miden_demo.Text.{Str, text, pad}
use brale_miden_demo.Text.Laws.{length-le-len}
use brale_miden_demo.Decimal.{to_string}
use brale_miden_demo.Display.Layout.{separator, row, length-row_padded, length-separator}
use brale_miden_demo.Display.BalanceTable.{
  supply_str, col_token, balance_lines, print_balance_table,
}

-- The texts of the token column leave two characters of it free.
col_token-fits :
    (symbol : Str) (supply a b : ℕ)
    → (length symbol + 2 ≤ col_token symbol supply a b)
      × (length (supply_str supply) + 2 ≤ col_token symbol supply a b)
      × (length (to_string a) + 2 ≤ col_token symbol supply a b)
      × (length (to_string b) + 2 ≤ col_token symbol supply a b)
unfolding col_token
col_token-fits symbol supply a b = omega (
  arith,
  length-le-len symbol,
  length-le-len (supply_str supply),
  length-le-len (to_string a),
  length-le-len (to_string b),
)

-- A border over columns of which the first and the last are fixed.
border_width :
    (left cross right token : ℕ) → length (separator left cross right 10 token 8) ≡ token + 22
border_width left cross right token = omega (arith, length-separator left cross right 10 token 8)

-- A row below the header is as wide as the borders.
body_width :
    (name value role : Str) (token : ℕ)
    → length name ≤ 9
    → length value + 2 ≤ token
    → length role ≤ 7
    → length (row (pad 9 name) (pad (token - 1) value) (pad 7 role)) ≡ token + 22
body_width name value role token hn hv hr =
    omega (arith, length-row_padded 9 (token - 1) 7 name value role)

header_width :
    (symbol : Str) (token : ℕ)
    → length symbol + 2 ≤ token
    → length (row (pad 9 (text "Account")) (pad token symbol) (pad 8 (text "Role")))
      ≡ token + 22 + 2
header_width symbol token h =
    omega (arith, length-row_padded 9 token 8 (text "Account") symbol (text "Role"))

-- At any symbol and amounts every line is as wide as the top border, but the header, which is two
-- characters wider.
pub print_balance_table-widths :
    (symbol : Str) (supply a b : ℕ)
    → let w = col_token symbol supply a b + 22 in
      map length (print_balance_table symbol supply a b) ≡ w ∷ (w + 2) ∷ w ∷ w ∷ w ∷ w ∷ w ∷ []
unfolding print_balance_table balance_lines
print_balance_table-widths symbol supply a b =
    let t = col_token symbol supply a b in
    let f = col_token-fits symbol supply a b in
    ap₂ ◌∷◌ (border_width _ _ _ t) (
      ap₂ ◌∷◌ (header_width symbol t f.0) (
        ap₂ ◌∷◌ (border_width _ _ _ t) (
          ap₂ ◌∷◌ (body_width (text "Issuer") _ (text "Faucet") t (omega arith) f.1 (omega arith)) (
            ap₂ ◌∷◌
              (body_width (text "Wallet A") _ (text "Holder") t (omega arith) f.2 (omega arith))
              (ap₂ ◌∷◌
                (body_width (text "Wallet B") _ (text "Holder") t (omega arith) f.3 (omega arith))
                (ap₂ ◌∷◌ (border_width _ _ _ t) refl))))))
