-- ===== src/Tests/Demo.antt =====
-- The full demo at a concrete input.
use brale_miden_demo.Base.{ℕ, ◌≡◌, refl, [], ◌∷◌, ◌++◌, some, none, ok, err, length}
use brale_miden_demo.Text.{Str, text}
use brale_miden_demo.Client.{Client}
use brale_miden_demo.Config.{Env, not_present, from_env}
use brale_miden_demo.Keystore
use brale_miden_demo.MockSigner.{register_key}
use brale_miden_demo.Operations.Links.{submit}
use brale_miden_demo.Operations.Accounts.{create_wallet_account, deploy_issuer_account}
use brale_miden_demo.Operations.Notes.{
  await_rounds, await_notes, notes_of, consume_available, consume_notes,
}
use brale_miden_demo.Operations.Tokens.{mint_tokens, send_burn_note, burn_tokens, transfer_tokens}
use brale_miden_demo.Operations.Reads.{full_account, read_balance, read_total_supply}
use brale_miden_demo.Operations.Recorded.Submissions.{R, W}
use brale_miden_demo.Programs.Setup.{Machine}
use brale_miden_demo.Programs.FullDemo.{
  TempDir, Setup, finished, unprepared, full_demo, set_up, demo, create_accounts, mint_step,
  transfer_step, burn_step, print_state,
}
use brale_miden_demo.Programs.FullDemo.Executors.{executors}
use brale_miden_demo.Programs.FullDemo.Steps.{full_demo-executors}
use brale_miden_demo.Tests.Doubles.{Store, crypto, one_key, client}

-- A client that has every account.
abbrev with_accounts : Client crypto
with_accounts = record client { get_account = λ id s. ok (some (id, 0, 0, 0)) }

abbrev new_store : Store
new_store = record { syncs = 0; account = none }

abbrev machine : Machine crypto one_key (R crypto with_accounts)
machine = record {
  Host = ℕ;
  Endpoint = Str;
  parse_account = λ s. ok (length s);
  new_secret_key = λ h. (5, h);
  endpoint = λ s. ok s;
  open_keystore = λ path h. (ok none, h);
  add_key = λ store key h. (ok (some key), h);
  build_client = λ endpoint path keystore h. (ok (new_store, []), h);
}

abbrev tempdir : TempDir crypto one_key (R crypto with_accounts) machine
tempdir h = (ok (text "/tmp/demo"), h)

abbrev env : Env
env name = err not_present

abbrev setup : Setup crypto one_key (R crypto with_accounts) machine
setup = (105, 105, 105, (new_store, []))

-- The world that the demo leaves.
abbrev end : W crypto with_accounts
end =
    elim (full_demo crypto one_key (R crypto with_accounts) machine tempdir env
      (text "full_demo" ∷ text "--private" ∷ []) 0) [
        | unprepared e w ↦ record { state = (new_store, []); out = [] }
        | finished s r w ↦ w
      ]

full_demo-executors_example :
    executors crypto with_accounts end.state.1 ≡ [] ++ (2 ∷ 1 ∷ 1 ∷ 1 ∷ 1 ∷ 2 ∷ [])
unfolding full_demo set_up demo create_accounts mint_step transfer_step burn_step print_state submit
    create_wallet_account deploy_issuer_account await_rounds await_notes notes_of consume_available
    consume_notes mint_tokens send_burn_note burn_tokens transfer_tokens full_account read_balance
    read_total_supply from_env register_key Keystore.new
full_demo-executors_example =
    full_demo-executors crypto one_key with_accounts machine tempdir env
      (text "full_demo" ∷ text "--private" ∷ []) 0 setup (2, 1, 1) end refl
