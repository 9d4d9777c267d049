-- ===== src/Tests/Balances.antt =====
-- The full demo over a client whose state is the ledger.
use brale_miden_demo.Base.{
  ℕ, ◌+◌, ◌≡◌, refl, List, [], ◌∷◌, ◌++◌, some, none, ok, err, length, nat_eq, arith,
}
use brale_miden_demo.Text.{Str, text}
use brale_miden_demo.Config.{Env, not_present, from_env}
use brale_miden_demo.Keystore
use brale_miden_demo.MockSigner.{register_key}
use brale_miden_demo.Operations.Links
use brale_miden_demo.Operations.Monad.{World}
use brale_miden_demo.Operations.Accounts.{create_wallet_account, deploy_issuer_account}
use brale_miden_demo.Operations.Notes.{
  await_rounds, await_notes, notes_of, consume_available, consume_notes,
}
use brale_miden_demo.Operations.Tokens.{mint_tokens, send_burn_note, burn_tokens, transfer_tokens}
use brale_miden_demo.Operations.Reads.{full_account, read_balance, read_total_supply}
use brale_miden_demo.Ledger.{Ledger}
use brale_miden_demo.Programs.Setup.{Machine}
use brale_miden_demo.Programs.FullDemo.{
  TempDir, Setup, finished, unprepared, full_demo, set_up, demo, create_accounts, mint_step,
  transfer_step, burn_step, print_state,
}
use brale_miden_demo.Programs.FullDemo.Tables.{Listed, table, two_tables}
use brale_miden_demo.Programs.FullDemo.Amounts.{Holds}
use brale_miden_demo.Programs.FullDemo.Balances.{full_demo-balances}
use brale_miden_demo.Tests.Doubles.{crypto, one_key}
use brale_miden_demo.Tests.Ledgers.{ledger_client, ledger_laws}
use brale_miden_demo.Tests.Networks.{ledger-Alone, ledger-Shows}

abbrev new_ledger : Ledger ℕ
new_ledger = record { supply = 0; vaults = []; notes = [] }

-- A machine that draws one key after the other.
abbrev machine : Machine crypto one_key (ledger_client 100)
machine = record {
  Host = ℕ;
  Endpoint = Str;
  parse_account = λ s. ok (length s);
  new_secret_key = λ h. (h, h + 1);
  endpoint = λ s. ok s;
  open_keystore = λ path h. (ok none, h);
  add_key = λ store key h. (ok (some key), h);
  build_client = λ endpoint path keystore h. (ok new_ledger, h);
}

abbrev tempdir : TempDir crypto one_key (ledger_client 100) machine
tempdir h = (ok (text "/tmp/demo"), h)

abbrev env : Env
env name = err not_present

abbrev setup : Setup crypto one_key (ledger_client 100) machine
setup = (100, 101, 102, new_ledger)

-- The world that the demo leaves.
abbrev end : World (Ledger ℕ)
end =
    elim (full_demo crypto one_key (ledger_client 100) machine tempdir env (text "full_demo" ∷ [])
      0) [ unprepared e w ↦ record { state = new_ledger; out = [] } | finished s r w ↦ w ]

full_demo-balances_example :
    Holds nat_eq end.state 900 (101, 700) (102, 200)
    × (before : List Str) × (end.out
        ≡ before ++ (table 900 700 200 ++ ([] ∷ text "Full demo complete!" ∷ [])))
    × Listed two_tables before
unfolding full_demo set_up demo create_accounts mint_step transfer_step burn_step print_state
    Links.submit create_wallet_account deploy_issuer_account await_rounds await_notes notes_of
    consume_available consume_notes mint_tokens send_burn_note burn_tokens transfer_tokens
    full_account read_balance read_total_supply from_env register_key Keystore.new
full_demo-balances_example =
    full_demo-balances crypto one_key (ledger_client 100) machine 100 (ledger_laws 100 100 refl)
      (ledger-Alone 100 100 refl) (ledger-Shows 100 100 refl) tempdir env (text "full_demo" ∷ []) 0
      setup 101 102 end refl (λ h. absurd (ground arith)) (λ h. absurd (ground arith))
      (λ h. absurd (ground arith)) refl
