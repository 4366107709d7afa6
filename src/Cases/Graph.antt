-- ===== src/Cases/Graph.antt =====
-- The transition diagram of a case, with the counters left out, for service.py,
-- execution_transitions.py and fact_transitions.py.
use administrative_orchestra.Base.{is_ok, Option, Text, Timestamp, arith, false, ok, true, ◌≡◌}
use administrative_orchestra.Cases.Lifecycle.{Action, apply, program}
use administrative_orchestra.Cases.Transitions.{is_terminal}
use administrative_orchestra.Cases.Waiting.{ParsedTime}
use administrative_orchestra.Domain.{AdministrativeCase, CaseStatus}

infix 40 ◌⟶◌
-- `s ⟶ t`: an edge from status `s` to status `t`.
pub data ◌⟶◌ : CaseStatus → CaseStatus → Type 0 where
  stay : {s : CaseStatus} → is_terminal s ≡ false → s ⟶ s
  gather : {s : CaseStatus} → is_terminal s ≡ false → s ⟶ CaseStatus.gathering_facts
  reopen : {s : CaseStatus} → is_terminal s ≡ false → s ⟶ CaseStatus.reopen_required
  ready_first : CaseStatus.received ⟶ CaseStatus.ready_for_policy
  ready : CaseStatus.gathering_facts ⟶ CaseStatus.ready_for_policy
  ask : CaseStatus.ready_for_policy ⟶ CaseStatus.awaiting_decision
  close : CaseStatus.ready_for_policy ⟶ CaseStatus.completed
  deny : CaseStatus.ready_for_policy ⟶ CaseStatus.cancelled
  approve : CaseStatus.awaiting_decision ⟶ CaseStatus.authorized
  reject : CaseStatus.awaiting_decision ⟶ CaseStatus.cancelled
  wait : CaseStatus.authorized ⟶ CaseStatus.waiting
  wake : CaseStatus.waiting ⟶ CaseStatus.authorized
  execute : CaseStatus.authorized ⟶ CaseStatus.executing
  verify : CaseStatus.executing ⟶ CaseStatus.verifying
  reconcile_executing : CaseStatus.executing ⟶ CaseStatus.reconciling
  reconcile_verifying : CaseStatus.verifying ⟶ CaseStatus.reconciling
  verify_again : CaseStatus.reconciling ⟶ CaseStatus.verifying
  finish : CaseStatus.verifying ⟶ CaseStatus.completed
  fail_authorized : CaseStatus.authorized ⟶ CaseStatus.failed
  fail_executing : CaseStatus.executing ⟶ CaseStatus.failed
  fail_verifying : CaseStatus.verifying ⟶ CaseStatus.failed
  fail_reconciling : CaseStatus.reconciling ⟶ CaseStatus.failed

ruleset edges = (
  stay, gather, reopen, ready_first, ready, ask, close, deny, approve, reject, wait, wake, execute,
  verify, reconcile_executing, reconcile_verifying, verify_again, finish, fail_authorized,
  fail_executing, fail_verifying, fail_reconciling,
)

module _ (from_iso : Text → Option ParsedTime) (now : Timestamp) where
  -- A transition that succeeds leads from the status of the case along an edge of the diagram
  -- `⟶`.
  pub apply-⟶ :
      (a : Action) (c : AdministrativeCase) {d : AdministrativeCase}
      → apply from_iso now a c ≡ ok d
      → c.status ⟶ d.status
  unfolding program
  apply-⟶ (Action.new_facts s) c h = grind (arith, stay)
  apply-⟶ (Action.reevaluated_facts s) c h = grind (arith, gather)
  apply-⟶ (Action.evidence s) c h = grind (arith, stay)
  apply-⟶ (Action.reopen s) c h = grind (arith, reopen)
  apply-⟶ a c h = grind (arith, edges)

  -- On a completed or a cancelled case every transition raises.
  pub apply-terminal :
      (a : Action) (c : AdministrativeCase)
      → is_terminal c.status ≡ true
      → is_ok (apply from_iso now a c) ≡ false
  unfolding program
  apply-terminal (Action.evaluation e) c t = ground arith
  apply-terminal a c t = ground arith
