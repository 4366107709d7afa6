-- ===== src/Cases/Lifecycle.antt =====
-- The pure transitions as one step function over the requests that a caller makes, and runs of such
-- steps. Each case of `apply` is the call of one function of service.py, execution_transitions.py
-- or fact_transitions.py.
use administrative_orchestra.Base.{
  Bool, List, Option, Outcome, Text, Timestamp, [], ok, ℕ, ◌>>=◌, ◌∷◌,
}
use administrative_orchestra.Cases.Execution.{
  begin_execution, begin_reconciliation, begin_verification, complete_verified_case, fail_execution,
  resume_verification,
}
use administrative_orchestra.Cases.Transitions.{
  TransitionError, add_evidence, apply_policy_evaluation, explicit_reopen, record_decision,
  replace_fact_snapshot, replace_facts_for_reevaluation, require_reopen, start_policy_evaluation,
}
use administrative_orchestra.Cases.Waiting.{
  ParsedTime, begin_waiting_for_effective_time, resume_from_waiting,
}
use administrative_orchestra.Domain.{
  AdministrativeCase, Decision, EvidenceRef, FactSnapshot, ReopenReason,
}
use administrative_orchestra.Policy.{PolicyEvaluation}

pub data Action : Type 0 where
  new_facts reevaluated_facts : FactSnapshot → Action
  evidence : EvidenceRef → Action
  start_evaluation : Action
  evaluation : PolicyEvaluation → Action
  decision : Decision → (approval_complete : Bool) → Action
  reopen : ReopenReason → Action
  resume_reopened execute verify reconcile resume_verifying fail : Action
  wait resume_waiting : Option Timestamp → Action
  complete : (expected verified : ℕ) → Action

module _ (from_iso : Text → Option ParsedTime) where
  unfoldable pub apply :
      Timestamp → Action → AdministrativeCase → Outcome TransitionError AdministrativeCase
  apply now (Action.new_facts s) c = replace_fact_snapshot now c s
  apply now (Action.reevaluated_facts s) c = replace_facts_for_reevaluation now c s
  apply now (Action.evidence e) c = add_evidence now c e
  apply now Action.start_evaluation c = start_policy_evaluation now c
  apply now (Action.evaluation e) c = apply_policy_evaluation now c e
  apply now (Action.decision d approved) c = record_decision now c d approved
  apply now (Action.reopen r) c = require_reopen now c r
  apply now Action.resume_reopened c = explicit_reopen now c
  apply now Action.execute c = begin_execution now c
  apply now Action.verify c = begin_verification now c
  apply now Action.reconcile c = begin_reconciliation now c
  apply now Action.resume_verifying c = resume_verification now c
  apply now Action.fail c = fail_execution now c
  apply now (Action.wait given) c = begin_waiting_for_effective_time from_iso given now c
  apply now (Action.resume_waiting given) c = resume_from_waiting from_iso given now c
  apply now (Action.complete e v) c = complete_verified_case now c e v

  -- A run raises with its first step that raises.
  unfoldable pub run :
      List (Timestamp × Action) → AdministrativeCase → Outcome TransitionError AdministrativeCase
  run [] c = ok c
  run ((now, a) ∷ as') c = apply now a c >>= run as'

-- The line that opens `apply` and all that it calls.
unfoldable pub program : Unit {0}
unfolding apply replace_fact_snapshot replace_facts_for_reevaluation add_evidence
    start_policy_evaluation apply_policy_evaluation record_decision require_reopen explicit_reopen
    begin_execution begin_verification begin_reconciliation resume_verification fail_execution
    begin_waiting_for_effective_time resume_from_waiting complete_verified_case
program = tt
