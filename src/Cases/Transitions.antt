-- ===== src/Cases/Transitions.antt =====
-- service.py: creation, facts, evidence, policy, decisions and reopening.
use administrative_orchestra.Base.{
  Bool, Option, Outcome, Text, Timestamp, Uuid, [], false, if◌then◌else◌, nat_eq, none, not, ok,
  option_eq, raise_if, some, string_eq, true, ◌++◌, ◌+◌, ◌==◌, ◌>>◌, ◌||◌, ◌∷◌,
}
use administrative_orchestra.Domain.{
  AdministrativeCase, AdministrativeRequest, AuthorizationError, CaseStatus, Decision,
  DecisionDisposition, EvidenceRef, FactSnapshot, ReopenReason, decision_eq, policy_eq, status_eq,
}
use administrative_orchestra.Policy.{PolicyDisposition, PolicyEvaluation, disposition_eq}

-- One constructor for each message of a `TransitionError`.
pub data TransitionError : Type 0 where
  terminal_facts terminal_evidence policy_status policy_not_ready : TransitionError
  decision_status decision_other_case decision_other_epoch decision_other_version : TransitionError
  decision_other_policy : TransitionError
  decision_stale decision_policy_not_current approval_other_case approval_stale : TransitionError
  approval_policy_not_current : TransitionError
  mint_status mint_not_approving mint_not_preceding approval_unsupported : TransitionError
  authorization_other_case authorization_stale authorization_status : TransitionError
  authorization_other_subject authorization_not_current operation_out_of_scope : TransitionError
  mint_invalid : AuthorizationError → TransitionError
  planning_status execution_status verification_status terminal_reopen reopen_status :
      TransitionError
  waiting_kind waiting_status no_effective_time effective_time_passed : TransitionError
  resume_status lost_effective_time effective_time_not_reached : TransitionError
  reconciliation_status resume_verification_status completion_status : TransitionError
  no_planned_effect unverified_effect failure_status : TransitionError

-- `case.status in {COMPLETED, CANCELLED}`
abbrev pub is_terminal : CaseStatus → Bool
is_terminal s = (s == CaseStatus.completed) || (s == CaseStatus.cancelled)

-- The constructor call of `create_case`, with the fields that default.
unfoldable pub create_case :
    AdministrativeRequest
    → Uuid
    → Text
    → Text
    → Option FactSnapshot
    → Timestamp
    → AdministrativeCase
create_case request case_id case_kind subject_ref fact_snapshot now = record {
  case_id = case_id;
  case_kind = case_kind;
  requester_principal_id = request.requester_principal_id;
  subject_ref = subject_ref;
  status = CaseStatus.received;
  version = 1;
  authority_epoch = 1;
  fact_snapshot = fact_snapshot;
  policy_ref = none;
  evidence = [];
  reopen_reason = none;
  created_at = now;
  updated_at = now;
}

unfoldable pub replace_fact_snapshot :
    Timestamp → AdministrativeCase → FactSnapshot → Outcome TransitionError AdministrativeCase
replace_fact_snapshot now c snapshot = do
  raise_if (is_terminal c.status) terminal_facts
  ok (record c {
    fact_snapshot = some snapshot;
    version = c.version + 1;
    authority_epoch = c.authority_epoch + 1;
    updated_at = now;
  })

unfoldable pub add_evidence :
    Timestamp → AdministrativeCase → EvidenceRef → Outcome TransitionError AdministrativeCase
add_evidence now c evidence = do
  raise_if (is_terminal c.status) terminal_evidence
  ok (record c {
    evidence = c.evidence ++ evidence ∷ [];
    version = c.version + 1;
    authority_epoch = c.authority_epoch + 1;
    updated_at = now;
  })

unfoldable pub start_policy_evaluation :
    Timestamp → AdministrativeCase → Outcome TransitionError AdministrativeCase
start_policy_evaluation now c = do
  raise_if
      (not (
        (c.status == CaseStatus.received)
        || ((c.status == CaseStatus.gathering_facts) || (c.status == CaseStatus.ready_for_policy))))
      policy_status
  ok (record c { status = CaseStatus.ready_for_policy; version = c.version + 1; updated_at = now })

-- The status that each disposition leads to.
abbrev pub disposition_status : PolicyDisposition → CaseStatus
disposition_status PolicyDisposition.need_more_facts = CaseStatus.gathering_facts
disposition_status PolicyDisposition.human_decision_required = CaseStatus.awaiting_decision
disposition_status PolicyDisposition.auto_closable = CaseStatus.completed
disposition_status PolicyDisposition.denied = CaseStatus.cancelled
disposition_status PolicyDisposition.reopen_required = CaseStatus.reopen_required

-- `reopen_reason` is written on the branch of `REOPEN_REQUIRED` alone.
unfoldable pub apply_policy_evaluation :
    Timestamp → AdministrativeCase → PolicyEvaluation → Outcome TransitionError AdministrativeCase
apply_policy_evaluation now c evaluation = do
  raise_if (not (c.status == CaseStatus.ready_for_policy)) policy_not_ready
  ok (record c {
    policy_ref = some evaluation.policy_ref;
    version = c.version + 1;
    authority_epoch = c.authority_epoch + 1;
    updated_at = now;
    status = disposition_status evaluation.disposition;
    reopen_reason =
        if evaluation.disposition == PolicyDisposition.reopen_required
        then evaluation.reopen_reason
        else c.reopen_reason;
  })

-- The status after a decision; `approval_complete` is read for an approval alone.
abbrev pub decided_status : DecisionDisposition → Bool → CaseStatus
decided_status DecisionDisposition.approve true = CaseStatus.authorized
decided_status DecisionDisposition.approve false = CaseStatus.awaiting_decision
decided_status DecisionDisposition.reject _ = CaseStatus.cancelled
decided_status DecisionDisposition.request_changes _ = CaseStatus.gathering_facts
decided_status DecisionDisposition.escalate _ = CaseStatus.reopen_required

unfoldable pub record_decision :
    Timestamp → AdministrativeCase → Decision → Bool → Outcome TransitionError AdministrativeCase
record_decision now c decision approval_complete = do
  raise_if (not (c.status == CaseStatus.awaiting_decision)) decision_status
  raise_if (not (decision.case_id == c.case_id)) decision_other_case
  raise_if (not (decision.authority_epoch == c.authority_epoch)) decision_other_epoch
  raise_if (not (decision.case_version == c.version)) decision_other_version
  raise_if (not (some decision.policy_ref == c.policy_ref)) decision_other_policy
  let status = decided_status decision.disposition approval_complete
  let reopened = status == CaseStatus.reopen_required
  ok (record c {
    status = status;
    version = c.version + 1;
    updated_at = now;
    reopen_reason = if reopened then some ReopenReason.authority_unresolved else c.reopen_reason;
    authority_epoch = if reopened then c.authority_epoch + 1 else c.authority_epoch;
  })

unfoldable pub require_reopen :
    Timestamp → AdministrativeCase → ReopenReason → Outcome TransitionError AdministrativeCase
require_reopen now c reason = do
  raise_if (is_terminal c.status) terminal_reopen
  ok (record c {
    status = CaseStatus.reopen_required;
    reopen_reason = some reason;
    version = c.version + 1;
    authority_epoch = c.authority_epoch + 1;
    updated_at = now;
  })

unfoldable pub explicit_reopen :
    Timestamp → AdministrativeCase → Outcome TransitionError AdministrativeCase
explicit_reopen now c = do
  raise_if (not (c.status == CaseStatus.reopen_required)) reopen_status
  ok (record c {
    status = CaseStatus.gathering_facts;
    reopen_reason = none;
    version = c.version + 1;
    updated_at = now;
  })

-- fact_transitions.py
unfoldable pub replace_facts_for_reevaluation :
    Timestamp → AdministrativeCase → FactSnapshot → Outcome TransitionError AdministrativeCase
replace_facts_for_reevaluation now c snapshot = do
  raise_if (is_terminal c.status) terminal_facts
  ok (record c {
    fact_snapshot = some snapshot;
    policy_ref = none;
    status = CaseStatus.gathering_facts;
    reopen_reason = none;
    version = c.version + 1;
    authority_epoch = c.authority_epoch + 1;
    updated_at = now;
  })
