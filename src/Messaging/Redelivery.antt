-- ===== src/Messaging/Redelivery.antt =====
-- What becomes of an event of messaging.py whose worker is gone.
use administrative_orchestra.Base.{
  Any, Any-sort_by, Bool, List, Timestamp, Uuid, [], ap, arith, contains, false, here,
  if◌then◌else◌, keep, keep_intro, length, length-keep-le, length-sort_by, map, nat_eq, option_eq,
  refl, sort_by, string_eq, take, take_all, there, true, ℕ, ◌∙◌, ◌∷◌, ◌≡◌, ◌≤◌,
}
use administrative_orchestra.Messaging.Claims.{
  claim_outbox, ids_of, is_claimable, is_recoverable, older, recover_expired_leases, recovered,
  selected, write_rows,
}
use administrative_orchestra.Messaging.Exclusion.{claimed_ids_of}
use administrative_orchestra.Messaging.Rows.{
  Outbox, OutboxEventRow, has_lapsed, is_due, is_processing,
}
use administrative_orchestra.Messaging.Steps.{claimed_ids}

module _ {Json : Type 0} where
  contains-ids_of :
      (r : OutboxEventRow Json) (rows : List (OutboxEventRow Json))
      → Any (λ s. s ≡ r) rows
      → contains (ids_of rows) r.event_id ≡ true
  contains-ids_of r [] m = elim m [ ]
  contains-ids_of r (s ∷ rows) (here e) =
      ground (arith, ap (λ (t : OutboxEventRow Json). t.event_id) e)
  contains-ids_of r (s ∷ rows) (there m) = ground (arith, contains-ids_of r rows m)

  selected_row :
      (batch : ℕ) (wanted : OutboxEventRow Json → Bool) (r : OutboxEventRow Json)
      (rows : List (OutboxEventRow Json))
      → length rows ≤ batch
      → Any (λ s. s ≡ r) rows
      → wanted r ≡ true
      → contains (ids_of (selected batch wanted rows)) r.event_id ≡ true
  selected_row batch wanted r rows b m w =
      let all = sort_by older (keep wanted rows) in
      let whole : take batch all ≡ all =
        take_all batch all
          (omega (arith, length-sort_by older (keep wanted rows), length-keep-le wanted rows)) in
      rw whole (
        contains-ids_of r all
          ((Any-sort_by older (λ s. s ≡ r) (keep wanted rows)).0 (keep_intro wanted r rows w m)))

  written_row :
      (ids : List Uuid) (f : OutboxEventRow Json → OutboxEventRow Json) (r : OutboxEventRow Json)
      (rows : List (OutboxEventRow Json))
      → contains ids r.event_id ≡ true
      → Any (λ s. s ≡ r) rows
      → Any (λ s. s ≡ f r) (write_rows ids f rows)
  written_row ids f r [] c m = elim m [ ]
  written_row ids f r (s ∷ rows) c (here e) =
      let is_in : contains ids s.event_id ≡ true =
        ap (λ (t : OutboxEventRow Json). contains ids t.event_id) e ∙ c in
      here (rw is_in (ap f e))
  written_row ids f r (s ∷ rows) c (there m) = there (written_row ids f r rows c m)

  length-map :
      (f : OutboxEventRow Json → OutboxEventRow Json) (rows : List (OutboxEventRow Json))
      → length (map f rows) ≡ length rows
  length-map f [] = refl
  length-map f (r ∷ rows) = omega (arith, length-map f rows)

  -- An event whose lease has lapsed is not lost: if no other transaction has its row locked and the
  -- batches are as large as the outbox, a recovery and then a claim, at a time when the event is
  -- due, hand it out again.
  pub lapsed_redelivered :
      (now later : Timestamp) (locked : Uuid → Bool) (batch lease : ℕ) (box : Outbox Json)
      (r : OutboxEventRow Json)
      → Any (λ s. s ≡ r) box.rows
      → is_processing r.status ≡ true
      → has_lapsed now r.lease_until ≡ true
      → is_due later r.next_attempt_at ≡ true
      → locked r.event_id ≡ false
      → length box.rows ≤ batch
      → contains
          (claimed_ids later locked batch lease (recover_expired_leases now locked batch box).1)
          r.event_id
        ≡ true
  unfolding recover_expired_leases claim_outbox
  lapsed_redelivered now later locked batch lease box r m p l d u b =
      let back = ids_of (selected batch (is_recoverable now locked) box.rows) in
      let chosen = selected_row batch (is_recoverable now locked) r box.rows b m (ground arith) in
      let rows = write_rows back recovered box.rows in
      let there_again = written_row back recovered r box.rows chosen m in
      let due : is_claimable later locked (recovered r) ≡ true = ground arith in
      ap (λ ids. contains ids r.event_id)
        (claimed_ids_of (selected batch (is_claimable later locked) rows))
      ∙ selected_row batch (is_claimable later locked) (recovered r) rows
          (omega
            (arith, length-map (λ s. if contains back s.event_id then recovered s else s) box.rows))
          there_again due
