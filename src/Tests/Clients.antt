-- ===== src/Tests/Clients.antt =====
-- The operations at concrete inputs, over a small client.
use brale_miden_demo.Base.{ℕ, ◌%◌, ◌≡◌, refl, [], ◌∷◌, ◌++◌, some, none, ok, err, arith}
use brale_miden_demo.Text.{Str, text}
use brale_miden_demo.Client
use brale_miden_demo.Operations.Monad.{World}
use brale_miden_demo.Operations.Links.{submit, transaction_link, account_link}
use brale_miden_demo.Operations.Accounts.{create_wallet_account, deploy_issuer_account}
use brale_miden_demo.Operations.Notes.{
  Messages, await_rounds, await_notes, notes_of, consume_available, consume_notes,
}
use brale_miden_demo.Operations.Notes.Polling.{
  ShowsSome, await_notes-ok, await_notes-found, await_notes-exhausted,
}
use brale_miden_demo.Operations.Notes.Ending.{Ends, await_notes-Ends}
use brale_miden_demo.Operations.Tokens.{mint_tokens, send_burn_note, burn_tokens, transfer_tokens}
use brale_miden_demo.Operations.Reads.{
  read_balance, read_total_supply, read_token_metadata, sync_and_track,
}
use brale_miden_demo.Operations.Deployment.{
  modulus, deploy_issuer_account-reads, create_wallet_account-read_balance,
}
use brale_miden_demo.Operations.Recorded.Submissions.{
  R, W, ChainOutcome, mint_tokens-submits, transfer_tokens-submits,
}
use brale_miden_demo.Operations.Recorded.Consumptions.{ConsumeOutcome}
use brale_miden_demo.Operations.Recorded.Burning.{
  BurnOutcome, burn_tokens-submits, consume_notes-submits,
}
use brale_miden_demo.Tests.Doubles.{Store, crypto, client, client-Laws}

abbrev fresh : Store
fresh = record { syncs = 0; account = none }

abbrev synced_twice : Store
synced_twice = record { syncs = 2; account = none }

abbrev start : W crypto client
start = record { state = (fresh, []); out = [] }

abbrev link : ℕ → Str
link = transaction_link crypto (R crypto client)

abbrev minted : W crypto client
minted = record { state = (fresh, (2, 6, ok 8) ∷ []); out = link 8 ∷ [] }

mint_tokens-submits_example :
    ChainOutcome crypto client 2
      (client.fungible_asset 2 5)
      (λ asset. client.build_mint_fungible_asset asset 1 Client.NoteType.private)
      start
      (ok tt)
      minted
unfolding mint_tokens submit
mint_tokens-submits_example = mint_tokens-submits crypto client 2 1 5 (ok tt) start minted refl

abbrev transferred : W crypto client
transferred = record { state = (fresh, (1, 4, ok 5) ∷ []); out = link 5 ∷ [] }

transfer_tokens-submits_example :
    ChainOutcome crypto client 1
      (client.fungible_asset 2 5)
      (λ asset. client.build_pay_to_id (asset ∷ []) 1 3 Client.NoteType.private)
      start
      (ok tt)
      transferred
unfolding transfer_tokens submit
transfer_tokens-submits_example =
    transfer_tokens-submits crypto client 1 3 2 5 (ok tt) start transferred refl

abbrev burnt : W crypto client
burnt = record {
  state = (synced_twice, (1, 1, ok 2) ∷ (2, 1, ok 3) ∷ []);
  out = link 2 ∷ link 3 ∷ [];
}

burn_tokens-submits_example : BurnOutcome crypto client 1 2 4 start (ok tt) burnt
unfolding burn_tokens send_burn_note submit consume_available await_notes await_rounds notes_of
burn_tokens-submits_example = burn_tokens-submits crypto client 1 2 4 (ok tt) start burnt refl

abbrev consumed : W crypto client
consumed = record { state = (synced_twice, (1, 1, ok 2) ∷ []); out = link 2 ∷ [] }

consume_notes-submits_example : ConsumeOutcome crypto client 1 start (ok tt) consumed
unfolding consume_notes submit consume_available await_notes await_rounds notes_of
consume_notes-submits_example = consume_notes-submits crypto client 1 (ok tt) start consumed refl

abbrev messages : Messages
messages = record {
  sync_failed = text "sync";
  read_failed = text "read";
  none_found = text "none";
  build_failed = text "build";
  submit_failed = text "submit";
}

abbrev plain : World Store
plain = record { state = fresh; out = [] }

abbrev plain_synced : World Store
plain_synced = record { state = synced_twice; out = [] }

await_notes-ok_run : ShowsSome crypto client 1 synced_twice × (plain_synced.out ≡ plain.out)
unfolding await_notes await_rounds
await_notes-ok_run =
    await_notes-ok crypto client 1 120 messages plain plain_synced (omega arith) refl

await_notes-found_example : await_notes crypto client 120 messages 1 plain ≡ (ok tt, plain_synced)
await_notes-found_example =
    await_notes-found crypto client 1 120 messages 1 plain (omega arith) ((tt, refl), tt) tt refl

await_notes-exhausted_example :
    await_notes crypto client 1 messages 1 plain
    ≡ (err (text "none" ∷ []), record { state = record { syncs = 1; account = none }; out = [] })
await_notes-exhausted_example =
    await_notes-exhausted crypto client 1 1 messages 0 plain refl tt (tt, refl)

await_notes-Ends_example :
    Ends crypto client 1 120 messages 120 plain (await_notes crypto client 120 messages 1 plain).1
await_notes-Ends_example = await_notes-Ends crypto client 1 120 messages plain (omega arith)

abbrev deployed : World Store
deployed = record {
  state = record { syncs = 0; account = some (2, 1000, 6, 4) };
  out = account_link crypto client 2 ∷ [];
}

deploy_issuer_account-reads_example :
    (t : ℕ) × (client.token_symbol (text "USDB") ≡ ok t)
    × (read_token_metadata crypto client 2 deployed
        ≡ (ok (record { symbol = t; decimals = 6; max_supply = 1000 % modulus }), deployed))
    × (read_total_supply crypto client 2 deployed ≡ (ok 0, deployed))
unfolding deploy_issuer_account
deploy_issuer_account-reads_example =
    deploy_issuer_account-reads crypto client client-Laws 105 (text "USDB") 6 1000 (2, 1000, 6, 4)
      plain deployed (omega arith) refl

abbrev created : World Store
created = record {
  state = record { syncs = 0; account = some (1, 0, 0, 0) };
  out = account_link crypto client 1 ∷ [];
}

create_wallet_account-read_balance_run : read_balance crypto client 1 2 created ≡ (ok 0, created)
unfolding create_wallet_account
create_wallet_account-read_balance_run =
    create_wallet_account-read_balance crypto client client-Laws 105
      Client.AccountStorageMode.public (1, 0, 0, 0) 2 plain created refl

link_run : link 8 ≡ text "  ↳ https://testnet.midenscan.com/tx/" ++ (8 ∷ [])
unfolding transaction_link
link_run = refl

account_link_run :
    account_link crypto client 8 ≡ text "  ↳ https://testnet.midenscan.com/account/" ++ (8 ∷ [])
unfolding account_link
account_link_run = refl

sync_and_track_run :
    sync_and_track crypto client plain
    ≡ (ok tt, record { state = record { syncs = 1; account = none }; out = [] })
unfolding sync_and_track
sync_and_track_run = refl
