-- ===== src/Tests/Tables.antt =====
-- The tables, the configuration and decimal texts at concrete inputs.
use brale_miden_demo.Base.{
  ◌+◌, ◌≡◌, refl, true, false, List, [], ◌∷◌, ◌++◌, map, none, some, err, length, All, arith,
  returned, panicked,
}
use brale_miden_demo.Text.{Str, text, split_at}
use brale_miden_demo.Decimal.{to_string, digits}
use brale_miden_demo.Config.{Env, not_present, from_env, default}
use brale_miden_demo.Config.Laws.{set_var, override, from_env-set_var, from_env-unset}
use brale_miden_demo.Display.BalanceTable.{
  col_token, print_balance_table, balance_lines, supply_str,
}
use brale_miden_demo.Display.BalanceTable.Widths.{print_balance_table-widths}
use brale_miden_demo.Display.SignerTable.{
  Signer, summary, print_signer_table, signer_rows, commit_display, signer_row, status_text,
}
use brale_miden_demo.Display.Layout.{separator, row}
use brale_miden_demo.Display.SignerTable.Laws.{
  table, print_signer_table_lem, print_signer_table-widths,
}

abbrev empty_env : Env
empty_env name = err not_present

from_env-set_var_example :
    from_env (set_var "LOG_LEVEL" (text "debug") empty_env)
    ≡ override "LOG_LEVEL" (text "debug") (from_env empty_env)
from_env-set_var_example = from_env-set_var "LOG_LEVEL" (text "debug") empty_env

from_env-unset_run : from_env empty_env ≡ record {
  miden_rpc_endpoint = text "https://rpc.testnet.miden.io";
  psm_endpoint = text "http://localhost:50051";
  sqlite_store_path = text "./store.sqlite3";
  keystore_path = text "./keystore";
  issuer_account_id = none;
  log_level = text "info";
}
from_env-unset_run = from_env-unset empty_env (λ name. refl)

print_balance_table-widths_example :
    map length (print_balance_table (text "USDB") 1000 700 300)
    ≡ (col_token (text "USDB") 1000 700 300 + 22)
      ∷ (col_token (text "USDB") 1000 700 300 + 22 + 2)
      ∷ (col_token (text "USDB") 1000 700 300 + 22)
      ∷ (col_token (text "USDB") 1000 700 300 + 22)
      ∷ (col_token (text "USDB") 1000 700 300 + 22)
      ∷ (col_token (text "USDB") 1000 700 300 + 22)
      ∷ (col_token (text "USDB") 1000 700 300 + 22)
      ∷ []
print_balance_table-widths_example = print_balance_table-widths (text "USDB") 1000 700 300

-- Two of three have signed.
abbrev signers : List Signer
signers =
    record { name = text "Signer 1"; commitment_hex = text "0x4eac00000324"; signed = true }
    ∷ record { name = text "Signer 2"; commitment_hex = text "0xea7e"; signed = true }
    ∷ record { name = text "Signer 3"; commitment_hex = text "0x2015bc16bc16"; signed = false }
    ∷ []

print_signer_table_lem_example : print_signer_table signers 2 ≡ (table signers 2, returned tt)
print_signer_table_lem_example = print_signer_table_lem signers 2 (omega arith) (omega arith)

print_signer_table-widths_run :
    (lines : List Str) × (verdict : Str) × ((print_signer_table signers 2).0
      ≡ lines ++ (verdict ∷ []))
    × All (λ l. length l ≡ 40) lines
print_signer_table-widths_run =
    print_signer_table-widths signers 2 (omega arith) (omega arith) (omega arith)

from_env_custom :
    (default (set_var "ISSUER_ACCOUNT_ID" (text "0xabc") empty_env)).issuer_account_id
    ≡ some (text "0xabc")
unfolding default
from_env_custom = refl

-- The header reaches two columns past the borders.
print_balance_table_run :
    print_balance_table (text "USDB") 1000 700 300
    ≡ text "┌──────────┬─────────┬────────┐"
      ∷ text "│ Account  │ USDB     │ Role    │"
      ∷ text "├──────────┼─────────┼────────┤"
      ∷ text "│ Issuer   │ S: 1000 │ Faucet │"
      ∷ text "│ Wallet A │ 700     │ Holder │"
      ∷ text "│ Wallet B │ 300     │ Holder │"
      ∷ text "└──────────┴─────────┴────────┘"
      ∷ []
unfolding print_balance_table balance_lines col_token supply_str to_string digits separator row
print_balance_table_run = refl

print_signer_table_run : print_signer_table signers 2 ≡ (
  text "┌──────────┬────────────┬──────────────┐"
      ∷ text "│ Signer   │ Status     │ Commitment   │"
      ∷ text "├──────────┼────────────┼──────────────┤"
      ∷ text "│ Signer 1 │ ✓ Signed   │ 0x4eac…0324  │"
      ∷ text "│ Signer 2 │ ✓ Signed   │ 0xea7e       │"
      ∷ text "│ Signer 3 │ — Pending  │ 0x2015…bc16  │"
      ∷ text "└──────────┴────────────┴──────────────┘"
      ∷ text "Threshold: 2/3 met ✓"
      ∷ [],
  returned tt,
)
unfolding print_signer_table signer_rows commit_display split_at signer_row status_text summary
    to_string digits separator row
print_signer_table_run = refl

-- A commitment that is no ASCII may be cut inside a character, which panics.
print_signer_table_panics :
    (print_signer_table
      (record { name = text "A"; commitment_hex = text "0xaéééééé"; signed = true } ∷ [])
      1).1
    ≡ panicked
unfolding print_signer_table signer_rows commit_display split_at
print_signer_table_panics = refl
