-- ===== src/Operations/Notes.antt =====
-- Waiting for notes and consuming them: `consume_notes`, and the loop that `burn_tokens` has too.
pub mod Polling
pub mod Ending
use brale_miden_demo.Base.{
  ℕ, zero, suc, ◌+◌, Bool, true, false, ◌==◌, ◌++◌, List, [], ◌∷◌, Option, none, some, is_empty, ok,
}
use brale_miden_demo.Text.{Str, text}
use brale_miden_demo.Decimal.{to_string}
use brale_miden_demo.Crypto.{Crypto}
use brale_miden_demo.Client.{Client}
use brale_miden_demo.Operations.Monad.{
  World, Action, ◌>>=◌, ◌>>◌, pure, bail, lift, context, call, query, println,
}
use brale_miden_demo.Operations.Links.{submit}

abbrev pub max_attempts : ℕ
max_attempts = 120

-- The texts that differ between the two functions: of the calls that may fail, and of the `bail!`.
pub record Messages : Type 0 where
  pub sync_failed : Str
  pub read_failed : Str
  pub none_found : Str
  pub build_failed : Str
  pub submit_failed : Str

module _ (C : Crypto) (K : Client C) where
  abbrev pub Found : Type 0
  Found = List (K.InputNoteRecord × K.NoteRelevance)

  -- `client.get_consumable_notes(Some(account_id))`
  abbrev pub consumable_notes : Str → K.AccountId → Action K.State Found
  consumable_notes message id = context message (query (K.get_consumable_notes (some id)))

  -- `tokio::time::sleep(Duration::from_secs(3))`
  abbrev pub sleep : Action K.State (Unit {0})
  sleep w = (ok tt, record w { state = K.sleep 3 w.state })

  -- `for attempt in …` with that many rounds left. After the last round the loop is over.
  unfoldable pub await_rounds : ℕ → Messages → K.AccountId → ℕ → ℕ → Action K.State (Unit {0})
  await_rounds most m id zero attempt = pure tt
  await_rounds most m id (suc left) attempt = do
    context m.sync_failed (call K.sync_state)
    consumable ← consumable_notes m.read_failed id
    elim (is_empty consumable) [
      | false ↦ pure tt
      | true ↦ elim (attempt == most) [
        | true ↦ bail m.none_found
        | false ↦ sleep >> await_rounds most m id left (attempt + 1)
      ]
    ]

  -- `for attempt in 1..=max_attempts`
  unfoldable pub await_notes : ℕ → Messages → K.AccountId → Action K.State (Unit {0})
  await_notes most m id = await_rounds most m id most 1

  -- `filter_map(|(record, _)| record.try_into().ok())`
  unfoldable pub notes_of : Found → List K.Note
  notes_of [] = []
  notes_of ((record', _) ∷ found) = elim (K.to_note record') [
    | none ↦ notes_of found
    | some note ↦ note ∷ notes_of found
  ]

  -- Waiting for the notes of an account, and one transaction of it that consumes them: the body of
  -- `consume_notes`, and the second step of `burn_tokens`.
  unfoldable pub consume_available : Messages → K.AccountId → Action K.State (Unit {0})
  consume_available m account_id = do
    await_notes max_attempts m account_id
    consumable ← consumable_notes m.read_failed account_id
    let notes = notes_of consumable
    tx_request ← context m.build_failed (lift (K.build_consume_notes notes))
    submit C K m.submit_failed account_id tx_request

  abbrev pub consume_messages : K.AccountId → Messages
  consume_messages id = record {
    sync_failed = text "failed to sync state";
    read_failed = text "failed to get consumable notes";
    none_found =
        text "no consumable notes found for "
        ++ (K.display_account id
            ++ (text " after " ++ (to_string max_attempts ++ text " sync attempts")));
    build_failed = text "failed to build consume notes transaction";
    submit_failed = text "failed to submit consume notes transaction";
  }

  unfoldable pub consume_notes : K.AccountId → Action K.State (Unit {0})
  consume_notes account_id = consume_available (consume_messages account_id) account_id
