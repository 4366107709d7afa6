-- ===== src/Messaging/Relay.antt =====
-- What the relay of messaging.py writes after an attempt, and the replay of failed events.
use administrative_orchestra.Base.{
  Bool, List, Option, Outcome, Text, Timestamp, Uuid, [], concat, false, if◌then◌else◌, is_blank,
  keep, leb, map, max, min, nat_eq, none, not, ok, option_eq, or_raise, raise_if, some, sort_by,
  string_eq, strip, take, truncate, ℕ, ◌+◌, ◌==◌, ◌>>=◌, ◌>>◌, ◌∷◌,
}
use administrative_orchestra.Domain.{status_eq}
use administrative_orchestra.Messaging.Claims.{older}
use administrative_orchestra.Messaging.Rows.{
  FailedOutboxEvent, Outbox, OutboxEventRow, OutboxReplayError, OutboxStatus, ReplayedOutboxEvent,
  delay_seconds, is_failed, outbox_event_not_failed, outbox_event_not_found, replay_actor,
  replay_without_reason, seconds,
}

module _ {Json : Type 0} where
  -- `db.get(OutboxEventRow, event_id)`
  abbrev pub find_event : Uuid → List (OutboxEventRow Json) → Option (OutboxEventRow Json)
  find_event event_id [] = none
  find_event event_id (r ∷ rows) =
      if r.event_id == event_id then some r else find_event event_id rows

  abbrev pub write_event :
      Uuid
      → (OutboxEventRow Json → OutboxEventRow Json)
      → List (OutboxEventRow Json)
      → List (OutboxEventRow Json)
  write_event event_id f [] = []
  write_event event_id f (r ∷ rows) =
      if r.event_id == event_id then f r ∷ rows else r ∷ write_event event_id f rows

  -- `mark_dispatched`
  unfoldable pub mark_dispatched : Uuid → Outbox Json → Outbox Json
  mark_dispatched event_id box = record box {
    rows =
        write_event event_id
          (λ r. record r {
            status = OutboxStatus.dispatched;
            lease_until = none;
            last_error = none;
          })
          box.rows;
  }

  -- The row after a failed attempt.
  unfoldable pub retried : Timestamp → Text → ℕ → OutboxEventRow Json → OutboxEventRow Json
  retried now error max_attempts r =
      let tried = r.attempts + 1 in
      if leb max_attempts tried
      then record r {
        attempts = tried;
        lease_until = none;
        last_error = some (truncate 2000 error);
        status = OutboxStatus.failed;
        next_attempt_at = none;
      }
      else record r {
        attempts = tried;
        lease_until = none;
        last_error = some (truncate 2000 error);
        status = OutboxStatus.pending;
        next_attempt_at = some (now + seconds (delay_seconds tried));
      }

  abbrev pub is_exhausted : ℕ → Option (OutboxEventRow Json) → Bool
  is_exhausted max_attempts none = false
  is_exhausted max_attempts (some r) = leb max_attempts (r.attempts + 1)

  -- `mark_retry`: whether the event has now failed for good, and the outbox
  unfoldable pub mark_retry : Timestamp → Uuid → Text → ℕ → Outbox Json → Bool × Outbox Json
  mark_retry now event_id error max_attempts box = (
    is_exhausted max_attempts (find_event event_id box.rows),
    record box { rows = write_event event_id (retried now error max_attempts) box.rows },
  )

  -- `replay_failed_outbox`
  unfoldable pub replay_failed_outbox :
      Timestamp
      → Uuid
      → Uuid
      → Text
      → Text
      → Outbox Json
      → Outcome OutboxReplayError (ReplayedOutboxEvent × Outbox Json)
  replay_failed_outbox now audit_id event_id reason actor box = do
    raise_if (is_blank (strip reason)) replay_without_reason
    row ← or_raise (find_event event_id box.rows) outbox_event_not_found
    raise_if (not (is_failed row.status)) outbox_event_not_failed
    let replay_reason = truncate 2000 (strip reason)
    ok (
      record {
        event_id = row.event_id;
        status = OutboxStatus.pending;
        attempts = 0;
        audit_id = audit_id;
      },
      record {
        rows =
            write_event event_id
              (λ r. record r {
                status = OutboxStatus.pending;
                attempts = 0;
                next_attempt_at = none;
                lease_until = none;
                last_error =
                    some (truncate 2000 (concat "dead-letter replay requested: " replay_reason));
              })
              box.rows;
        audits =
            record {
              audit_id = audit_id;
              event_id = row.event_id;
              actor_principal_id = replay_actor actor;
              reason = replay_reason;
              occurred_at = now;
            }
            ∷ box.audits;
      },
    )

  -- `list_failed_outbox`: newest first, between 1 and 1000 of them
  unfoldable pub list_failed_outbox : ℕ → Outbox Json → List (FailedOutboxEvent Json)
  list_failed_outbox limit box =
      map
        (λ r. record {
          event_id = r.event_id;
          event_type = r.event_type;
          aggregate_id = r.aggregate_id;
          payload = r.payload;
          attempts = r.attempts;
          last_error = r.last_error;
          created_at = r.created_at;
        })
        (take (max 1 (min limit 1000))
          (sort_by (λ r s. older s r) (keep (λ r. is_failed r.status) box.rows)))
