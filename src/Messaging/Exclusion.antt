-- ===== src/Messaging/Exclusion.antt =====
-- Claims of messaging.py while a lease lasts.
use administrative_orchestra.Base.{
  All, Bool, Bool-cases, List, Text, Timestamp, Uuid, [], ap, arith, contains, false, if◌then◌else◌,
  inl, inr, map, nat_eq, option_eq, refl, string_eq, subst, sym, true, ℕ, ◌+◌, ◌==◌, ◌∙◌, ◌∷◌, ◌≡◌,
  ◌⊎◌,
}
use administrative_orchestra.Messaging.Claims.{
  claim_outbox, claimed_event, emit_outbox, ids_of, is_claimable, is_recoverable, leased,
  recover_expired_leases, recovered, selected, write_rows,
}
use administrative_orchestra.Messaging.Leases.{
  Held, held, Held-unclaimable, Held-unrecoverable, not_selected, write_event-Held, write_rows-Held,
}
use administrative_orchestra.Messaging.Relay.{mark_dispatched, mark_retry, retried}
use administrative_orchestra.Messaging.Rows.{Outbox, OutboxEventRow, seconds}
use administrative_orchestra.Messaging.Steps.{Spares, Step, claimed_ids, run_steps, step}

module _ {Json : Type 0} where
  retried_id :
      (now : Timestamp) (error : Text) (most : ℕ) (r : OutboxEventRow Json)
      → (retried now error most r).event_id ≡ r.event_id
  unfolding retried
  retried_id now error most r = ground arith

  step-Held :
      (limit : Timestamp) (id : Uuid) (s : Step Json) (box : Outbox Json)
      → Spares limit id s
      → Held limit id box.rows
      → Held limit id (step s box).rows
  unfolding step emit_outbox recover_expired_leases claim_outbox mark_dispatched mark_retry
  step-Held limit id (Step.emit now event_id event_type aggregate_id payload) box p h =
      (ground arith, h)
  step-Held limit id (Step.recover now locked batch) box p h =
      write_rows-Held limit id (ids_of (selected batch (is_recoverable now locked) box.rows))
        recovered box.rows (λ r. refl)
        (not_selected batch (is_recoverable now locked) id box.rows
          (Held-unrecoverable limit now locked id box.rows p h))
        h
  step-Held limit id (Step.claim now locked batch lease) box p h =
      write_rows-Held limit id (ids_of (selected batch (is_claimable now locked) box.rows))
        (leased (now + seconds lease)) box.rows (λ r. refl)
        (not_selected batch (is_claimable now locked) id box.rows
          (Held-unclaimable limit now locked id box.rows h))
        h
  step-Held limit id (Step.dispatch j) box p h =
      write_event-Held limit id j _ box.rows (λ r. refl) p h
  step-Held limit id (Step.retry now j error most) box p h =
      write_event-Held limit id j (retried now error most) box.rows (retried_id now error most) p h

  run_steps-Held :
      (limit : Timestamp) (id : Uuid) (steps : List (Step Json)) (box : Outbox Json)
      → All (Spares limit id) steps
      → Held limit id box.rows
      → Held limit id (run_steps steps box).rows
  unfolding run_steps
  run_steps-Held limit id [] box p h = h
  run_steps-Held limit id (s ∷ steps) box p h =
      run_steps-Held limit id steps (step s box) p.1 (step-Held limit id s box p.0 h)

  pub claimed_ids_of :
      (rows : List (OutboxEventRow Json))
      → map (λ e. e.event_id) (map claimed_event rows) ≡ ids_of rows
  claimed_ids_of [] = refl
  claimed_ids_of (r ∷ rows) = ap (λ ids. r.event_id ∷ ids) (claimed_ids_of rows)

  leased-Held :
      (until : Timestamp) (id : Uuid) (ids : List Uuid) (rows : List (OutboxEventRow Json))
      → contains ids id ≡ true
      → Held until id (write_rows ids (leased until) rows)
  leased-Held until id ids [] c = tt
  leased-Held until id ids (r ∷ rows) c =
      (one (Bool-cases (r.event_id == id)), leased-Held until id ids rows c)
    where
      one :
          ((r.event_id == id) ≡ true) ⊎ ((r.event_id == id) ≡ false)
          → held until id (if contains ids r.event_id then leased until r else r) ≡ true
      one (inl same) =
          let e : r.event_id ≡ id = ground arith in
          let is_in : contains ids r.event_id ≡ true =
            subst (λ i. contains ids i ≡ true) (sym e) c in
          rw is_in (ground arith)
      one (inr other) = ground arith

  -- After a claim has handed out an event, no later claim hands it out again, whatever relay
  -- transactions lie between, as long as they report no outcome for the event, emit no second event
  -- with its id, and take no lease for lapsed after the end of this one.
  pub claims_exclusive :
      (now : Timestamp) (locked : Uuid → Bool) (batch lease : ℕ) (box : Outbox Json) (id : Uuid)
      (steps : List (Step Json)) (later : Timestamp) (locked' : Uuid → Bool) (batch' lease' : ℕ)
      → contains (claimed_ids now locked batch lease box) id ≡ true
      → All (Spares (now + seconds lease) id) steps
      → contains
          (claimed_ids later locked' batch' lease'
            (run_steps steps (claim_outbox now locked batch lease box).1))
          id
        ≡ false
  unfolding claim_outbox
  claims_exclusive now locked batch lease box id steps later locked' batch' lease' c p =
      let mine = selected batch (is_claimable now locked) box.rows in
      let taken = (claim_outbox now locked batch lease box).1 in
      let is_mine : contains (ids_of mine) id ≡ true =
        subst (λ ids. contains ids id ≡ true) (claimed_ids_of mine) c in
      let after = run_steps steps taken in
      let limit = now + seconds lease in
      let holds =
        run_steps-Held limit id steps taken p
          (leased-Held limit id (ids_of mine) box.rows is_mine) in
      let theirs = selected batch' (is_claimable later locked') after.rows in
      ap (λ ids. contains ids id) (claimed_ids_of theirs)
      ∙ not_selected batch' (is_claimable later locked') id after.rows
          (Held-unclaimable limit later locked' id after.rows holds)
