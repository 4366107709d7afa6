-- ===== src/Messaging/Claims.antt =====
-- Emission, claims and the recovery of lapsed leases in messaging.py. `utcnow()` and `uuid4()` are
-- arguments. A transaction skips the rows that another one has locked: `locked` tells which.
use administrative_orchestra.Base.{
  Bool, List, Text, Timestamp, Uuid, contains, if◌then◌else◌, keep, leb, length, ltb, map, nat_eq,
  none, not, option_eq, some, sort_by, string_eq, take, ℕ, ◌&&◌, ◌+◌, ◌==◌, ◌||◌, ◌∷◌,
}
use administrative_orchestra.Domain.{status_eq}
use administrative_orchestra.Messaging.Rows.{
  Outbox, OutboxEvent, OutboxEventRow, OutboxStatus, has_lapsed, is_due, is_pending, is_processing,
  seconds,
}

module _ {Json : Type 0} where
  -- `emit_outbox`
  unfoldable pub emit_outbox : Timestamp → Uuid → Text → Text → Json → Outbox Json → Outbox Json
  emit_outbox now event_id event_type aggregate_id payload box = record box {
    rows =
        record {
          event_id = event_id;
          event_type = event_type;
          aggregate_id = aggregate_id;
          payload = payload;
          status = OutboxStatus.pending;
          attempts = 0;
          next_attempt_at = none;
          lease_until = none;
          last_error = none;
          created_at = now;
        }
        ∷ box.rows;
  }

  -- `ORDER BY created_at, event_id`
  abbrev pub older : OutboxEventRow Json → OutboxEventRow Json → Bool
  older r s =
      ltb r.created_at s.created_at || (r.created_at == s.created_at && leb r.event_id s.event_id)

  -- The rows that a query with its limit selects.
  abbrev pub selected :
      ℕ → (OutboxEventRow Json → Bool) → List (OutboxEventRow Json) → List (OutboxEventRow Json)
  selected batch wanted rows = take batch (sort_by older (keep wanted rows))

  abbrev pub ids_of : List (OutboxEventRow Json) → List Uuid
  ids_of = map (λ r. r.event_id)

  -- Writes to the rows with the given keys.
  abbrev pub write_rows :
      List Uuid
      → (OutboxEventRow Json → OutboxEventRow Json)
      → List (OutboxEventRow Json)
      → List (OutboxEventRow Json)
  write_rows ids f = map (λ r. if contains ids r.event_id then f r else r)

  abbrev pub is_recoverable : Timestamp → (Uuid → Bool) → OutboxEventRow Json → Bool
  is_recoverable now locked r =
      (is_processing r.status && has_lapsed now r.lease_until) && not (locked r.event_id)

  abbrev pub recovered : OutboxEventRow Json → OutboxEventRow Json
  recovered r = record r {
    status = OutboxStatus.pending;
    lease_until = none;
    last_error = some "lease expired; returned to pending";
  }

  -- `recover_expired_leases`, with the number of rows that it returns
  unfoldable pub recover_expired_leases :
      Timestamp → (Uuid → Bool) → ℕ → Outbox Json → ℕ × Outbox Json
  recover_expired_leases now locked batch box =
      let rows = selected batch (is_recoverable now locked) box.rows in
      (length rows, record box { rows = write_rows (ids_of rows) recovered box.rows })

  abbrev pub is_claimable : Timestamp → (Uuid → Bool) → OutboxEventRow Json → Bool
  is_claimable now locked r =
      (is_pending r.status && is_due now r.next_attempt_at) && not (locked r.event_id)

  abbrev pub leased : Timestamp → OutboxEventRow Json → OutboxEventRow Json
  leased until r = record r { status = OutboxStatus.processing; lease_until = some until }

  abbrev pub claimed_event : OutboxEventRow Json → OutboxEvent Json
  claimed_event r = record {
    event_id = r.event_id;
    event_type = r.event_type;
    aggregate_id = r.aggregate_id;
    payload = r.payload;
    attempts = r.attempts;
  }

  -- `claim_outbox`
  unfoldable pub claim_outbox :
      Timestamp → (Uuid → Bool) → ℕ → ℕ → Outbox Json → List (OutboxEvent Json) × Outbox Json
  claim_outbox now locked batch lease_seconds box =
      let rows = selected batch (is_claimable now locked) box.rows in
      (
        map claimed_event rows,
        record box {
          rows = write_rows (ids_of rows) (leased (now + seconds lease_seconds)) box.rows;
        },
      )
