-- ===== src/Operations/Notes/Polling.antt =====
-- When the loop that waits for notes ends, how, and in which state of the client.
use brale_miden_demo.Base.{
  ℕ, zero, suc, ◌+◌, ◌<◌, ◌≡◌, ◌⊎◌, sym, subst, false, [], ◌∷◌, some, is_empty, Result, ok, err,
  arith,
}
use brale_miden_demo.Crypto.{Crypto}
use brale_miden_demo.Client.{Client, Error}
use brale_miden_demo.Operations.Monad.{World}
use brale_miden_demo.Operations.Notes.{Messages, Found, await_rounds, await_notes}

module _ (C : Crypto) (K : Client C) where
  -- A round that ends the loop has synced at most; another sleeps, and the loop goes on.
  pub round-cases :
      (most : ℕ) (m : Messages) (id : K.AccountId) (left attempt : ℕ) (w : World K.State)
      → ((await_rounds C K most m id (suc left) attempt w).1
          ≡ record w { state = (K.sync_state w.state).1 })
        ⊎ (await_rounds C K most m id (suc left) attempt w
            ≡ await_rounds C K most m id left
                (attempt + 1)
                (record w { state = K.sleep 3 (K.sync_state w.state).1 }))
  unfolding await_rounds
  round-cases most m id left attempt w = ground arith

abbrev pub IsOk {ℓ κ} : {E : Type ℓ} {A : Type κ} → Result E A → Type 0
IsOk (ok a) = Unit
IsOk (err e) = ⊥

module _ (C : Crypto) (K : Client C) (id : K.AccountId) where
  -- The client after a sync, and after rounds that each sync and then sleep.
  abbrev pub synced : K.State → K.State
  synced s = (K.sync_state s).1

  abbrev pub after : ℕ → K.State → K.State
  after zero s = s
  after (suc k) s = after k (K.sleep 3 (synced s))

  abbrev pub ShowsNone : K.State → Type 0
  ShowsNone s = IsOk (K.sync_state s).0 × (K.get_consumable_notes (some id) (synced s) ≡ ok [])

  abbrev Shown : Result Error (Found C K) → Type 0
  Shown (ok found) = is_empty found ≡ false
  Shown (err e) = ⊥

  -- The client shows a note, or several, for the account.
  abbrev pub ShowsSome : K.State → Type 0
  ShowsSome s = Shown (K.get_consumable_notes (some id) s)

  -- In that many rounds the client syncs and shows no notes for the account.
  abbrev pub Waits : ℕ → K.State → Type 0
  Waits zero s = Unit
  Waits (suc k) s = ShowsNone s × Waits k (K.sleep 3 (synced s))

  module _ (most : ℕ) (m : Messages) where
    await_rounds-found :
        (k left attempt : ℕ) (w : World K.State) {n : K.InputNoteRecord × K.NoteRelevance}
        {rest : Found C K}
        → attempt + left ≡ suc most
        → k < left
        → Waits k w.state
        → IsOk (K.sync_state (after k w.state)).0
        → K.get_consumable_notes (some id) (synced (after k w.state)) ≡ ok (n ∷ rest)
        → await_rounds C K most m id left attempt w
          ≡ (ok tt, record w { state = synced (after k w.state) })
    unfolding await_rounds
    await_rounds-found k zero attempt w e lt waits sync shown = absurd (omega arith)
    await_rounds-found zero (suc left) attempt w e lt waits sync shown = ground arith
    await_rounds-found (suc k) (suc left) attempt w e lt waits sync shown = ground (
      arith,
      await_rounds-found k left (attempt + 1) (record w { state = K.sleep 3 (synced w.state) })
          (omega arith) (omega arith) waits.1 sync shown,
    )

    await_rounds-exhausted :
        (left attempt : ℕ) (w : World K.State)
        → attempt + left ≡ most
        → Waits left w.state
        → ShowsNone (after left w.state)
        → await_rounds C K most m id (suc left) attempt w
          ≡ (err (m.none_found ∷ []), record w { state = synced (after left w.state) })
    unfolding await_rounds
    await_rounds-exhausted zero attempt w e waits last = ground arith
    await_rounds-exhausted (suc left) attempt w e waits last = ground (
      arith,
      await_rounds-exhausted left (attempt + 1) (record w { state = K.sleep 3 (synced w.state) })
          (omega arith) waits.1 last,
    )

    await_rounds-ok :
        (left attempt : ℕ) (w w' : World K.State)
        → attempt + left ≡ suc most
        → 0 < left
        → await_rounds C K most m id left attempt w ≡ (ok tt, w')
        → ShowsSome w'.state × (w'.out ≡ w.out)
    unfolding await_rounds
    await_rounds-ok zero attempt w w' e lt h = absurd (omega arith)
    await_rounds-ok (suc left) attempt w w' e lt h = ground (
      arith,
      await_rounds-ok left (attempt + 1) (record w { state = K.sleep 3 (synced w.state) }) w',
    )

    -- If the loop returns without an error, then the client that it leaves shows notes for the account,
    -- and nothing has been printed.
    pub await_notes-ok :
        (w w' : World K.State)
        → 0 < most
        → await_notes C K most m id w ≡ (ok tt, w')
        → ShowsSome w'.state × (w'.out ≡ w.out)
    unfolding await_notes
    await_notes-ok w w' lt h = await_rounds-ok most 1 w w' (omega arith) lt h

    -- If notes first show after `k` rounds of syncing and sleeping, with no call failing up to there
    -- and `k` below the number of attempts, then the loop ends there without an error: in the state
    -- after those rounds and one more sync.
    pub await_notes-found :
        (k : ℕ) (w : World K.State) {n : K.InputNoteRecord × K.NoteRelevance} {rest : Found C K}
        → k < most
        → Waits k w.state
        → IsOk (K.sync_state (after k w.state)).0
        → K.get_consumable_notes (some id) (synced (after k w.state)) ≡ ok (n ∷ rest)
        → await_notes C K most m id w ≡ (ok tt, record w { state = synced (after k w.state) })
    unfolding await_notes
    await_notes-found k w lt waits sync shown =
        await_rounds-found k most 1 w (omega arith) lt waits sync shown

    -- If no notes show in any attempt and no call fails, then the loop fails with its last message, and
    -- it has synced once for each attempt and slept between them.
    pub await_notes-exhausted :
        (rounds : ℕ) (w : World K.State)
        → most ≡ suc rounds
        → Waits rounds w.state
        → ShowsNone (after rounds w.state)
        → await_notes C K most m id w
          ≡ (err (m.none_found ∷ []), record w { state = synced (after rounds w.state) })
    unfolding await_notes
    await_notes-exhausted rounds w e waits last =
        subst
          (λ left.
            await_rounds C K most m id left 1 w
            ≡ (err (m.none_found ∷ []), record w { state = synced (after rounds w.state) }))
          (sym e) (await_rounds-exhausted rounds 1 w (omega arith) waits last)
