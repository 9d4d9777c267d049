-- ===== src/Display/BalanceTable.antt =====
-- `print_balance_table`
pub mod Widths
use Prim.Native.Char.{code}
use brale_miden_demo.Base.{ℕ, ◌+◌, ◌-◌, List, [], ◌∷◌, ◌++◌, max, ◌≡◌, refl}
use brale_miden_demo.Text.{Str, text, len, pad}
use brale_miden_demo.Decimal.{to_string}
use brale_miden_demo.Display.Layout.{separator, row}

-- `format!("S: {issuer_supply}")`
unfoldable pub supply_str : ℕ → Str
supply_str issuer_supply = text "S: " ++ to_string issuer_supply

-- The width of the token column, from the byte lengths of its texts.
unfoldable pub col_token : Str → ℕ → ℕ → ℕ → ℕ
col_token token_symbol issuer_supply wallet_a_balance wallet_b_balance =
    max
      (max
        (max (max (len token_symbol) (len (supply_str issuer_supply)))
          (len (to_string wallet_a_balance)))
        (len (to_string wallet_b_balance)))
      7
    + 2

-- The lines that the table prints once its columns are `col_acct`, `token` and `col_role` wide.
unfoldable pub balance_lines : Str → Str → Str → Str → ℕ → List Str
balance_lines token_symbol supply a_str b_str token =
    let col_acct : ℕ = 10 in
    let col_role : ℕ = 8 in
    let hdr_token = pad token token_symbol in
    let hdr_role = pad col_role (text "Role") in
    let cells = λ (name value role : Str).
      row (pad (col_acct - 1) name) (pad (token - 1) value) (pad (col_role - 1) role) in
    separator (code "┌") (code "┬") (code "┐") col_acct token col_role
    ∷ row (pad (col_acct - 1) (text "Account")) hdr_token hdr_role
    ∷ separator (code "├") (code "┼") (code "┤") col_acct token col_role
    ∷ cells (text "Issuer") supply (text "Faucet")
    ∷ cells (text "Wallet A") a_str (text "Holder")
    ∷ cells (text "Wallet B") b_str (text "Holder")
    ∷ separator (code "└") (code "┴") (code "┘") col_acct token col_role
    ∷ []

unfoldable pub print_balance_table : Str → ℕ → ℕ → ℕ → List Str
print_balance_table token_symbol issuer_supply wallet_a_balance wallet_b_balance =
    balance_lines token_symbol (supply_str issuer_supply) (to_string wallet_a_balance)
      (to_string wallet_b_balance)
      (col_token token_symbol issuer_supply wallet_a_balance wallet_b_balance)
