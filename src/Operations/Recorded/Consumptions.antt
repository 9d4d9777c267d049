-- ===== src/Operations/Recorded/Consumptions.antt =====
-- Which transactions the operations submit that wait for notes: `consume_notes` and `burn_tokens`.
use brale_miden_demo.Base.{
  ℕ, zero, suc, ◌+◌, false, [], ◌∷◌, ◌≡◌, ◌⊎◌, refl, inl, inr, append-nil, is_empty, some, Result,
  ok, err, Result-cases, arith,
}
use brale_miden_demo.Crypto.{Crypto}
use brale_miden_demo.Client.{Client, Error}
use brale_miden_demo.Operations.Notes.{
  Messages, Found, max_attempts, await_rounds, await_notes, notes_of, consume_available,
}
use brale_miden_demo.Operations.Notes.Polling.{await_notes-ok}
use brale_miden_demo.Operations.Recorded.{Traced}
use brale_miden_demo.Operations.Recorded.Submissions.{
  R, W, Submitted, Refused, submit-ok, submit-err, moved,
}

module _ (C : Crypto) (K : Client C) where
  -- Nothing was submitted or printed.
  abbrev Quiet : W C K → W C K → Type 0
  Quiet w w' = (w'.state.1 ≡ w.state.1) × (w'.out ≡ w.out)

  await_rounds-Quiet :
      (most : ℕ) (m : Messages) (id : K.AccountId) (left attempt : ℕ) (w : W C K)
      → Quiet w (await_rounds C (R C K) most m id left attempt w).1
  unfolding await_rounds
  await_rounds-Quiet most m id zero attempt w = (refl, refl)
  await_rounds-Quiet most m id (suc left) attempt w = ground (
    arith,
    await_rounds-Quiet most m id left (attempt + 1)
        (moved C K w (K.sleep 3 (K.sync_state w.state.0).1)),
  )

  await_notes-Quiet :
      (most : ℕ) (m : Messages) (id : K.AccountId) (w : W C K)
      → Quiet w (await_notes C (R C K) most m id w).1
  unfolding await_notes
  await_notes-Quiet most m id w = await_rounds-Quiet most m id most 1 w

  -- One submission of the account, which consumes what notes the client showed for it, of which there
  -- were some; it was answered with a transaction. Or none was made, or just one that was refused.
  abbrev pub ConsumeOutcome : K.AccountId → W C K → Result Error (Unit {0}) → W C K → Type 0
  ConsumeOutcome id w (ok _) w' =
      (s : K.State) × (found : Found C K) × (request : K.TransactionRequest)
      × (K.get_consumable_notes (some id) s ≡ ok found)
      × (is_empty found ≡ false)
      × (K.build_consume_notes (notes_of C K found) ≡ ok request)
      × Submitted C K w id request w'
  ConsumeOutcome id w (err _) w' =
      Traced C K w w' []
      ⊎ ((s : K.State) × (found : Found C K) × (request : K.TransactionRequest)
          × (K.get_consumable_notes (some id) s ≡ ok found)
          × (is_empty found ≡ false)
          × (K.build_consume_notes (notes_of C K found) ≡ ok request)
          × Refused C K w id request w')

  notes_of-recorded : (found : Found C K) → notes_of C (R C K) found ≡ notes_of C K found
  unfolding notes_of
  notes_of-recorded [] = refl
  notes_of-recorded (n ∷ found) = ground (arith, notes_of-recorded found)

  Submitted-after :
      (w v : W C K) (id : K.AccountId) (request : K.TransactionRequest) (w' : W C K)
      → Quiet w v
      → Submitted C K v id request w'
      → Submitted C K w id request w'
  Submitted-after w v id request w' q (tx, traced) = (tx, ground arith)

  Refused-after :
      (w v : W C K) (id : K.AccountId) (request : K.TransactionRequest) (w' : W C K)
      → Quiet w v
      → Refused C K v id request w'
      → Refused C K w id request w'
  Refused-after w v id request w' q (e, traced) = (e, ground arith)

  -- The second read finds what ended the wait: notes.
  shown_after :
      (m : Messages) (id : K.AccountId) (w : W C K) (found : Found C K)
      → (await_notes C (R C K) max_attempts m id w).0 ≡ ok tt
      → K.get_consumable_notes (some id) (await_notes C (R C K) max_attempts m id w).1.state.0
        ≡ ok found
      → is_empty found ≡ false
  shown_after m id w found ended shown =
      let v = await_notes C (R C K) max_attempts m id w in
      ground (
        arith,
        await_notes-ok C (R C K) id max_attempts m w v.1 (omega arith) (λ i. (ended i, v.1)),
      )

  pub consume_available-outcome :
      (m : Messages) (id : K.AccountId) (r : Result Error (Unit {0})) (w w' : W C K)
      → consume_available C (R C K) m id w ≡ (r, w')
      → ConsumeOutcome id w r w'
  unfolding consume_available
  consume_available-outcome m id r w w' h = elim (Result-cases v.0) [
    | inl (u, ended) ↦ elim (Result-cases (K.get_consumable_notes (some id) v.1.state.0)) [
      | inl (found, shown) ↦
          elim (Result-cases (K.build_consume_notes (notes_of C (R C K) found))) [
            | inl (request, built) ↦ submitted u ended found shown request built r h
            | inr (x, built) ↦
                nothing_done r (m.build_failed ∷ x) (ground arith) (ground (arith, q))
          ]
      | inr (x, shown) ↦ nothing_done r (m.read_failed ∷ x) (ground arith) (ground (arith, q))
    ]
    | inr (x, ended) ↦ nothing_done r x (ground arith) (ground (arith, q))
  ]
    where
      v : Result Error (Unit {0}) × W C K
      v = await_notes C (R C K) max_attempts m id w

      q : Quiet w v.1
      q = await_notes-Quiet max_attempts m id w

      nothing_done :
          (r : Result Error (Unit {0})) (e : Error)
          → r ≡ err e
          → Quiet w w'
          → ConsumeOutcome id w r w'
      nothing_done (ok u) e f same = absurd (ground arith)
      nothing_done (err x) e f same = inl (ground (arith, append-nil w.state.1, append-nil w.out))

      submitted :
          (u : Unit {0})
          → v.0 ≡ ok u
          → (found : Found C K) → K.get_consumable_notes (some id) v.1.state.0 ≡ ok found
          → (request : K.TransactionRequest)
          → K.build_consume_notes (notes_of C (R C K) found) ≡ ok request
          → (r : Result Error (Unit {0})) → consume_available C (R C K) m id w ≡ (r, w')
          → ConsumeOutcome id w r w'
      submitted u ended found shown request built (ok x) h = (
        v.1.state.0,
        found,
        request,
        shown,
        shown_after m id w found ended shown,
        (rw notes_of-recorded at built),
        Submitted-after w v.1 id request w' q
            (submit-ok C K m.submit_failed id request v.1 w' (ground arith)),
      )
      submitted u ended found shown request built (err e) h = inr (
        v.1.state.0,
        found,
        request,
        shown,
        shown_after m id w found ended shown,
        (rw notes_of-recorded at built),
        Refused-after w v.1 id request w' q
            (submit-err C K m.submit_failed id request e v.1 w' (ground arith)),
      )
