-- ===== src/Operations/Notes/Ending.antt =====
-- That the loop that waits for notes ends, whatever the client does, and after how many rounds.
use brale_miden_demo.Base.{ℕ, zero, suc, ◌+◌, ◌<◌, ◌≡◌, ◌⊎◌, inl, inr, ◌∙◌, ap, arith}
use brale_miden_demo.Crypto.{Crypto}
use brale_miden_demo.Client.{Client}
use brale_miden_demo.Operations.Monad.{World}
use brale_miden_demo.Operations.Notes.{Messages, await_rounds, await_notes}
use brale_miden_demo.Operations.Notes.Polling.{synced, after, ShowsNone, Waits}

module _ (C : Crypto) (K : Client C) (id : K.AccountId) (most : ℕ) (m : Messages) where
  -- The loop left the client after some rounds without notes and one more sync, and printed nothing.
  abbrev pub Ends : ℕ → World K.State → World K.State → Type 0
  Ends bound w w' =
      (k : ℕ) × (k < bound)
      × Waits C K id k w.state
      × (w' ≡ record w { state = synced C K id (after C K id k w.state) })

  -- A round is the last one, or no notes were shown in it and there is a next one.
  round-Ends :
      (left attempt : ℕ) (w : World K.State)
      → attempt + left ≡ most
      → ((await_rounds C K most m id (suc left) attempt w).1
          ≡ record w { state = synced C K id w.state })
        ⊎ ((0 < left)
            × ShowsNone C K id w.state
            × (await_rounds C K most m id (suc left) attempt w
                ≡ await_rounds C K most m id left
                    (attempt + 1)
                    (record w { state = K.sleep 3 (synced C K id w.state) })))
  unfolding await_rounds
  round-Ends left attempt w e = ground arith

  await_rounds-Ends :
      (left attempt : ℕ) (w : World K.State)
      → attempt + left ≡ suc most
      → 0 < left
      → Ends left w (await_rounds C K most m id left attempt w).1
  await_rounds-Ends zero attempt w e lt = absurd (omega arith)
  await_rounds-Ends (suc left) attempt w e lt = elim (round-Ends left attempt w (omega arith)) [
    | inl last ↦ (0, omega arith, tt, last)
    | inr (more, shows, same) ↦
        let (k, le, waits, ended) =
          await_rounds-Ends left (attempt + 1)
            (record w { state = K.sleep 3 (synced C K id w.state) }) (omega arith) more in
        (suc k, omega arith, (shows, waits), ap (λ p. p.1) same ∙ ended)
  ]

  -- Whatever the client answers, the loop ends after fewer rounds than there are attempts, each of which
  -- synced, saw no notes and slept, and one more sync, so that it syncs at most once for each attempt; it
  -- prints nothing.
  pub await_notes-Ends :
      (w : World K.State) → 0 < most → Ends most w (await_notes C K most m id w).1
  unfolding await_notes
  await_notes-Ends w lt = await_rounds-Ends most 1 w (omega arith) lt
