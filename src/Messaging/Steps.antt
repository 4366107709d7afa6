-- ===== src/Messaging/Steps.antt =====
-- Sequences of relay transactions of messaging.py.
use administrative_orchestra.Base.{
  Bool, List, Option, Text, Timestamp, Uuid, [], false, leb, map, nat_eq, none, option_eq, some,
  string_eq, ℕ, ◌==◌, ◌∷◌, ◌≡◌, ◌≤◌,
}
use administrative_orchestra.Messaging.Claims.{claim_outbox, emit_outbox, recover_expired_leases}
use administrative_orchestra.Messaging.Relay.{mark_dispatched, mark_retry}
use administrative_orchestra.Messaging.Rows.{Outbox}

pub data Step (Json : Type 0) : Type 0 where
  emit : Timestamp → Uuid → Text → Text → Json → Step Json
  recover : Timestamp → (Uuid → Bool) → (batch : ℕ) → Step Json
  claim : Timestamp → (Uuid → Bool) → (batch : ℕ) → (lease_seconds : ℕ) → Step Json
  dispatch : Uuid → Step Json
  retry : Timestamp → Uuid → Text → (max_attempts : ℕ) → Step Json

-- The lease lasts until `limit` at least.
abbrev pub lasts : Timestamp → Option Timestamp → Bool
lasts limit none = false
lasts limit (some until) = leb limit until

-- A step leaves the lease of an event alone until `limit`: no lease is taken for lapsed later than
-- `limit`, and no outcome is reported for the event.
abbrev pub Spares : {Json : Type 0} → Timestamp → Uuid → Step Json → Type 0
Spares limit id (Step.emit now event_id event_type aggregate_id payload) = (event_id == id) ≡ false
Spares limit id (Step.recover now locked batch) = now ≤ limit
Spares limit id (Step.claim now locked batch lease_seconds) = Unit
Spares limit id (Step.dispatch event_id) = (event_id == id) ≡ false
Spares limit id (Step.retry now event_id error most) = (event_id == id) ≡ false

module _ {Json : Type 0} where
  unfoldable pub step : Step Json → Outbox Json → Outbox Json
  step (Step.emit now event_id event_type aggregate_id payload) box =
      emit_outbox now event_id event_type aggregate_id payload box
  step (Step.recover now locked batch) box = (recover_expired_leases now locked batch box).1
  step (Step.claim now locked batch lease_seconds) box =
      (claim_outbox now locked batch lease_seconds box).1
  step (Step.dispatch event_id) box = mark_dispatched event_id box
  step (Step.retry now event_id error most) box = (mark_retry now event_id error most box).1

  unfoldable pub run_steps : List (Step Json) → Outbox Json → Outbox Json
  run_steps [] box = box
  run_steps (s ∷ steps) box = run_steps steps (step s box)

  -- The events that a claim hands out.
  abbrev pub claimed_ids : Timestamp → (Uuid → Bool) → ℕ → ℕ → Outbox Json → List Uuid
  claimed_ids now locked batch lease_seconds box =
      map (λ e. e.event_id) (claim_outbox now locked batch lease_seconds box).0
