-- ===== src/Messaging/Rows.antt =====
-- OutboxEventRow, OutboxReplayAuditRow and the records that the relay returns. The columns that the
-- relay writes hold one of four status texts.
use administrative_orchestra.Base.{
  Bool, List, Option, Text, Timestamp, Uuid, false, if◌then◌else◌, is_blank, leb, ltb, min, none,
  some, strip, true, ℕ, ◌*◌, ◌-◌, ◌^◌,
}

pub data OutboxStatus : Type 0 where
  pending processing dispatched failed : OutboxStatus

abbrev pub is_pending : OutboxStatus → Bool
is_pending OutboxStatus.pending = true
is_pending _ = false

abbrev pub is_processing : OutboxStatus → Bool
is_processing OutboxStatus.processing = true
is_processing _ = false

abbrev pub is_failed : OutboxStatus → Bool
is_failed OutboxStatus.failed = true
is_failed _ = false

-- The payload is a JSON object that the relay hands on.
pub record OutboxEventRow (Json : Type 0) : Type 0 where
  pub event_id : Uuid
  pub event_type : Text
  pub aggregate_id : Text
  pub payload : Json
  pub status : OutboxStatus
  pub attempts : ℕ
  pub next_attempt_at : Option Timestamp
  pub lease_until : Option Timestamp
  pub last_error : Option Text
  pub created_at : Timestamp

pub record OutboxReplayAuditRow : Type 0 where
  pub audit_id : Uuid
  pub event_id : Uuid
  pub actor_principal_id : Text
  pub reason : Text
  pub occurred_at : Timestamp

pub record OutboxEvent (Json : Type 0) : Type 0 where
  pub event_id : Uuid
  pub event_type : Text
  pub aggregate_id : Text
  pub payload : Json
  pub attempts : ℕ

pub record FailedOutboxEvent (Json : Type 0) : Type 0 where
  pub event_id : Uuid
  pub event_type : Text
  pub aggregate_id : Text
  pub payload : Json
  pub attempts : ℕ
  pub last_error : Option Text
  pub created_at : Timestamp

pub record ReplayedOutboxEvent : Type 0 where
  pub event_id : Uuid
  pub status : OutboxStatus
  pub attempts : ℕ
  pub audit_id : Uuid

pub record Outbox (Json : Type 0) : Type 0 where
  pub rows : List (OutboxEventRow Json)
  pub audits : List OutboxReplayAuditRow

pub data OutboxReplayError : Type 0 where
  replay_without_reason outbox_event_not_found outbox_event_not_failed : OutboxReplayError

-- `timedelta(seconds=n)`, in the microseconds of a timestamp
abbrev pub seconds : ℕ → ℕ
seconds n = n * 1000000

abbrev pub has_lapsed : Timestamp → Option Timestamp → Bool
has_lapsed now none = false
has_lapsed now (some until) = ltb until now

abbrev pub is_due : Timestamp → Option Timestamp → Bool
is_due now none = true
is_due now (some at) = leb at now

-- `min(60, 2 ** max(0, attempts - 1))`
unfoldable pub delay_seconds : ℕ → ℕ
delay_seconds attempts = min 60 (2 ^ (attempts - 1))

-- `actor_principal_id.strip() or "system:outbox-replay"`
abbrev pub replay_actor : Text → Text
replay_actor actor = if is_blank (strip actor) then "system:outbox-replay" else strip actor
