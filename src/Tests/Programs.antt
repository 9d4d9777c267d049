-- ===== src/Tests/Programs.antt =====
-- The programs that mint, burn and transfer, at concrete inputs.
use brale_miden_demo.Base.{arith, ℕ, ◌≡◌, refl, [], ◌∷◌, none, ok, err}
use brale_miden_demo.Text.{Str, text}
use brale_miden_demo.Decimal.{parse, scan, to_string}
use brale_miden_demo.Client
use brale_miden_demo.Config.{not_present, from_env}
use brale_miden_demo.Keystore
use brale_miden_demo.Keystore.{get_signature}
use brale_miden_demo.Operations.Links.{transaction_link}
use brale_miden_demo.Operations.Recorded.Submissions.{R, W}
use brale_miden_demo.Programs.Setup.{run, unbuilt}
use brale_miden_demo.Programs.Arguments.{account_and_amount, transfer_arguments}
use brale_miden_demo.Programs.Arguments.Laws.{account_and_amount-to_string}
use brale_miden_demo.Programs.Tokens.{mint, minted_line, burned_line, transfer, transferred_line}
use brale_miden_demo.Tests.Doubles.{Store, crypto, one_key, client}
use brale_miden_demo.Tests.Machines.{machine, recorded_machine, env}

abbrev link : ℕ → Str
link = transaction_link crypto (R crypto client)

abbrev store_after : ℕ → Store
store_after n = record { syncs = n; account = none }

abbrev minted : W crypto client
minted = record {
  state = (store_after 1, (2, 6, ok 8) ∷ []);
  out = link 8 ∷ minted_line crypto one_key (R crypto client) recorded_machine 2 1 5 ∷ [];
}

abbrev burnt : W crypto client
burnt = record {
  state = (store_after 2, (1, 1, ok 2) ∷ (2, 1, ok 3) ∷ []);
  out = link 2 ∷ link 3 ∷ burned_line crypto one_key (R crypto client) recorded_machine 2 1 4 ∷ [];
}

mint_without_issuer :
    mint crypto one_key client machine (λ name. err not_present) [] 0
    ≡ unbuilt (text "ISSUER_ACCOUNT_ID must be set in .env" ∷ [])
unfolding mint run account_and_amount from_env
mint_without_issuer = refl

transfer_of_nothing :
    transfer crypto one_key client machine env
      (text "transfer" ∷ text "a" ∷ text "b" ∷ text "-1" ∷ [])
      0
    ≡ unbuilt (text "amount must be a number" ∷ text "invalid digit found in string" ∷ [])
unfolding transfer run transfer_arguments from_env parse scan
transfer_of_nothing = refl

abbrev transferred : W crypto client
transferred = record {
  state = (store_after 1, (1, 4, ok 5) ∷ []);
  out = link 5 ∷ transferred_line crypto one_key (R crypto client) recorded_machine 1 3 5 ∷ [];
}

account_and_amount-to_string_example :
    account_and_amount crypto one_key client machine
      (text "usage")
      (text "invalid")
      (from_env env)
      (text "mint" ∷ text "a" ∷ to_string 18446744073709551615 ∷ [])
      (record { state = 0; out = [] })
    ≡ (ok (2, 1, 18446744073709551615), record { state = 0; out = [] })
unfolding from_env
account_and_amount-to_string_example =
    account_and_amount-to_string crypto one_key client machine (text "usage") (text "invalid")
      (text "mint") (text "ab") (text "a") (from_env env) 2 1 18446744073709551615
      (record { state = 0; out = [] }) refl refl refl (omega arith)
