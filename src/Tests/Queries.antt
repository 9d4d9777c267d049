-- ===== src/Tests/Queries.antt =====
-- The programs that read and create an account, over a client whose state is the ledger.
use brale_miden_demo.Base.{ℕ, [], ◌∷◌, ◌++◌, refl, none, some, ok, length}
use brale_miden_demo.Text.{Str, text}
use brale_miden_demo.Decimal.{to_string, digits}
use brale_miden_demo.Client.{Client}
use brale_miden_demo.Config.{from_env}
use brale_miden_demo.Keystore
use brale_miden_demo.MockSigner.{as_signer}
use brale_miden_demo.MockSigner.Laws.{registered}
use brale_miden_demo.Operations.Monad.{World}
use brale_miden_demo.Operations.Links.{account_link}
use brale_miden_demo.Ledger.{Ledger}
use brale_miden_demo.Programs.Setup.{Machine, Prepared, prepare, run}
use brale_miden_demo.Operations.Reads
use brale_miden_demo.Operations.Reads.{full_account}
use brale_miden_demo.Programs.Arguments.{balance_arguments}
use brale_miden_demo.Programs.Accounts.{read_balance}
use brale_miden_demo.Programs.Accounts.Showing.{balance_of, Answered, program-Answered}
use brale_miden_demo.Tests.Doubles.{crypto, one_key}
use brale_miden_demo.Tests.Machines.{env}
use brale_miden_demo.Tests.Ledgers.{ledger_client, ledger_laws}
use brale_miden_demo.Tests.Networks.{ledger_readable, ledger-Shows, active}

abbrev opened : Ledger ℕ
opened = record { supply = 5; vaults = (3, 5) ∷ []; notes = [] }

abbrev ledger_machine : Machine crypto one_key (ledger_client 2)
ledger_machine = record {
  Host = ℕ;
  Endpoint = Str;
  parse_account = λ s. ok (length s);
  new_secret_key = λ h. (5, h);
  endpoint = λ s. ok s;
  open_keystore = λ path h. (ok none, h);
  add_key = λ store key h. (ok (some key), h);
  build_client = λ endpoint path keystore h. (ok opened, h);
}

abbrev prepared : Prepared crypto one_key (ledger_client 2) ledger_machine
prepared = record {
  public_key = 105;
  keystore = Keystore.new crypto one_key (some 5) (as_signer crypto (registered crypto (5 ∷ [])));
  client = opened;
}

abbrev balance_line : Str
balance_line = text "Account " ++ (Client.display_account (ledger_client 2) 3 ++ text " balance: 5")

program-Answered_example :
    Answered crypto one_key
      (ledger_client 2)
      ledger_machine
      2
      (ledger_laws 2 2 refl)
      (ledger-Shows 2 2 refl)
      (ledger_readable 2 2)
      (balance_of 3)
      prepared
      (ok tt)
      (record { state = opened; out = balance_line ∷ [] })
unfolding read_balance run prepare from_env Keystore.new balance_arguments Reads.read_balance
    full_account to_string digits
program-Answered_example =
    program-Answered crypto one_key (ledger_client 2) ledger_machine 2 (ledger_laws 2 2 refl)
      (ledger-Shows 2 2 refl) (ledger_readable 2 2) (balance_of 3) env
      (text "read_balance" ∷ text "abc" ∷ []) 0 prepared (ok tt)
      (record { state = opened; out = balance_line ∷ [] })
      (text "ab", text "abc", refl, refl, refl, refl) ((active 2 3 opened).0) refl

abbrev created : World (Ledger ℕ)
created = record {
  state = opened;
  out =
      account_link crypto (ledger_client 2) 105
      ∷ (text "Wallet account created: " ++ Client.display_account (ledger_client 2) 105)
      ∷ [];
}
