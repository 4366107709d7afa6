-- ===== src/Tests/Messages.antt =====
-- The outbox on a concrete event.
use administrative_orchestra.Base.{
  Bool, List, Timestamp, Uuid, [], arith, contains, false, here, list_eq, nat_eq, none, option_eq,
  refl, some, string_eq, true, truncate, ℕ, ◌+◌, ◌∷◌, ◌≡◌, ◌≤◌,
}
use administrative_orchestra.Domain.{status_eq}
use administrative_orchestra.Messaging.{
  Outbox, OutboxEventRow, OutboxStatus, claim_outbox, emit_outbox, find_event, mark_retry,
  recover_expired_leases, retried, seconds,
}
use administrative_orchestra.Messaging.Exclusion.{claims_exclusive}
use administrative_orchestra.Messaging.Redelivery.{lapsed_redelivered}
use administrative_orchestra.Messaging.Retry.{IsTried, failures, failures_end, retried_bounds}
use administrative_orchestra.Messaging.Steps.{Step, claimed_ids, run_steps, step}

abbrev waiting : OutboxEventRow ℕ
waiting = record {
  event_id = 5;
  event_type = "workflow.case_changed";
  aggregate_id = "case-7";
  payload = 1;
  status = OutboxStatus.pending;
  attempts = 0;
  next_attempt_at = none;
  lease_until = none;
  last_error = none;
  created_at = 10;
}

abbrev box : Outbox ℕ
box = record { rows = waiting ∷ []; audits = [] }

abbrev unlocked : Uuid → Bool
unlocked id = false

abbrev relay_steps : List (Step ℕ)
relay_steps =
    Step.recover (seconds 20) unlocked 100
    ∷ Step.emit (seconds 21) 6 "workflow.case_changed" "case-8" 2
    ∷ Step.retry (seconds 22) 6 "refused" 3
    ∷ []

relay_program : Unit {0}
unfolding claim_outbox recover_expired_leases emit_outbox mark_retry retried run_steps step failures
    truncate
relay_program = tt

claimed_first : contains (claimed_ids 20 unlocked 100 30 box) 5 ≡ true
unfolding relay_program
claimed_first = refl

claims_exclusive_example :
    contains
      (claimed_ids
        (seconds 25)
        unlocked
        100
        30
        (run_steps relay_steps (claim_outbox 20 unlocked 100 30 box).1))
      5
    ≡ false
claims_exclusive_example =
    claims_exclusive 20 unlocked 100 30 box 5 relay_steps (seconds 25) unlocked 100 30 claimed_first
      (omega arith, (refl, (refl, tt)))

-- Claimed by a relay that stopped.
abbrev abandoned : OutboxEventRow ℕ
abandoned = record waiting { status = OutboxStatus.processing; lease_until = some (seconds 30) }

lapsed_redelivered_example :
    contains
      (claimed_ids
        (seconds 41)
        unlocked
        100
        30
        (recover_expired_leases
          (seconds 40)
          unlocked
          100
          (record { rows = abandoned ∷ []; audits = [] })).1)
      5
    ≡ true
lapsed_redelivered_example =
    lapsed_redelivered (seconds 40) (seconds 41) unlocked 100 30
      (record { rows = abandoned ∷ []; audits = [] }) abandoned (here refl) refl refl refl refl
      (omega arith)

failures_end_example :
    (s : OutboxEventRow ℕ) × (find_event 5
        (failures 5 3 ((30, "refused") ∷ (40, "refused") ∷ (50, "gone") ∷ []) box).rows
      ≡ some s)
    × IsTried 3 3 s
failures_end_example =
    failures_end 5 3 30 "refused" ((40, "refused") ∷ (50, "gone") ∷ []) box {r = waiting} refl

retried_bounds_example :
    (at : Timestamp) × ((retried 30 "refused" 3 waiting).next_attempt_at ≡ some at)
    × (30 + seconds 1 ≤ at)
    × (at ≤ 30 + seconds 60)
retried_bounds_example = retried_bounds 30 "refused" 3 waiting (omega arith)
