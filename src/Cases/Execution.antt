-- ===== src/Cases/Execution.antt =====
-- service.py and execution_transitions.py: execution authorizations, effect planning, execution,
-- verification, reconciliation, completion and failure.
use administrative_orchestra.Authority.{ApprovalSatisfaction}
use administrative_orchestra.Base.{
  List, Option, Outcome, Text, Timestamp, Uuid, contains, is_empty, leb, ltb, map_err, nat_eq, none,
  not, ok, option_eq, or_raise, raise_if, some, string_eq, ℕ, ◌+◌, ◌==◌, ◌>>=◌, ◌>>◌, ◌||◌,
}
use administrative_orchestra.Cases.Transitions.{
  TransitionError, approval_other_case, approval_policy_not_current, approval_stale,
  approval_unsupported, authorization_not_current, authorization_other_case,
  authorization_other_subject, authorization_stale, authorization_status, completion_status,
  decision_other_case, decision_policy_not_current, decision_stale, execution_status,
  failure_status, mint_invalid, mint_not_approving, mint_not_preceding, mint_status,
  no_planned_effect, operation_out_of_scope, planning_status, reconciliation_status,
  resume_verification_status, unverified_effect, verification_status,
}
use administrative_orchestra.Domain.{
  AdministrativeCase, AuthorityClass, CaseStatus, Decision, DecisionDisposition, EffectRecord,
  EffectReversibility, EffectStatus, ExecutionAuthorization, authority_class_eq,
  authorization_current, decision_eq, policy_eq, status_eq, validate_authorization,
}

-- `mint_execution_authorization`; the constructed record is validated as pydantic does.
unfoldable pub mint_execution_authorization :
    Timestamp
    → AdministrativeCase
    → Decision
    → (authorization_id : Uuid) (issuer target_system : Text) (allowed_operations : List Text)
    → AuthorityClass
    → Option Timestamp
    → Outcome TransitionError ExecutionAuthorization
unfolding validate_authorization
mint_execution_authorization now c decision authorization_id issuer target operations class
      expires =
    do
      raise_if (not (c.status == CaseStatus.authorized)) mint_status
      raise_if (not (decision.disposition == DecisionDisposition.approve)) mint_not_approving
      raise_if (not (decision.case_id == c.case_id)) decision_other_case
      raise_if (not (decision.authority_epoch == c.authority_epoch)) decision_stale
      raise_if (leb c.version decision.case_version) mint_not_preceding
      policy_ref ← or_raise c.policy_ref decision_policy_not_current
      raise_if (not (decision.policy_ref == policy_ref)) decision_policy_not_current
      map_err mint_invalid (
          validate_authorization (record {
            authorization_id = authorization_id;
            case_id = c.case_id;
            case_version = c.version;
            authority_epoch = c.authority_epoch;
            decision_id = some decision.decision_id;
            approval_satisfaction_id = none;
            issuer_principal_id = issuer;
            target_system = target;
            subject_ref = c.subject_ref;
            allowed_operations = operations;
            authority_class = class;
            policy_ref = policy_ref;
            issued_at = now;
            expires_at = expires;
            revoked_at = none;
          }))

unfoldable pub mint_execution_authorization_from_approval :
    Timestamp
    → AdministrativeCase
    → ApprovalSatisfaction
    → (authorization_id : Uuid) (issuer target_system : Text) (allowed_operations : List Text)
    → AuthorityClass
    → Option Timestamp
    → Outcome TransitionError ExecutionAuthorization
unfolding validate_authorization
mint_execution_authorization_from_approval now c approval authorization_id issuer target operations
      class expires =
    do
      raise_if (not (c.status == CaseStatus.authorized)) mint_status
      raise_if (not (approval.case_id == c.case_id)) approval_other_case
      raise_if (not (approval.authority_epoch == c.authority_epoch)) approval_stale
      policy_ref ← or_raise c.policy_ref approval_policy_not_current
      raise_if (not (approval.policy_ref == policy_ref)) approval_policy_not_current
      raise_if (is_empty approval.decision_ids || is_empty approval.satisfied_roles)
          approval_unsupported
      map_err mint_invalid (
          validate_authorization (record {
            authorization_id = authorization_id;
            case_id = c.case_id;
            case_version = c.version;
            authority_epoch = c.authority_epoch;
            decision_id = none;
            approval_satisfaction_id = some approval.satisfaction_id;
            issuer_principal_id = issuer;
            target_system = target;
            subject_ref = c.subject_ref;
            allowed_operations = operations;
            authority_class = class;
            policy_ref = policy_ref;
            issued_at = now;
            expires_at = expires;
            revoked_at = none;
          }))

unfoldable pub validate_execution_authorization :
    Timestamp
    → AdministrativeCase
    → ExecutionAuthorization
    → Text
    → Outcome TransitionError (Unit {0})
validate_execution_authorization now c authorization operation = do
  raise_if (not (authorization.case_id == c.case_id)) authorization_other_case
  raise_if (not (authorization.authority_epoch == c.authority_epoch)) authorization_stale
  raise_if (not ((c.status == CaseStatus.authorized) || (c.status == CaseStatus.executing)))
      authorization_status
  raise_if (not (authorization.subject_ref == c.subject_ref)) authorization_other_subject
  raise_if (not (authorization_current authorization now)) authorization_not_current
  raise_if (not (contains authorization.allowed_operations operation)) operation_out_of_scope

unfoldable pub plan_effect :
    Timestamp
    → AdministrativeCase
    → ExecutionAuthorization
    → Uuid
    → Text
    → EffectReversibility
    → Outcome TransitionError EffectRecord
plan_effect now c authorization effect_id operation reversibility = do
  raise_if (not (c.status == CaseStatus.authorized)) planning_status
  validate_execution_authorization now c authorization operation
  ok (record {
    effect_id = effect_id;
    case_id = c.case_id;
    case_version = c.version;
    authority_epoch = c.authority_epoch;
    authorization_id = authorization.authorization_id;
    obligation_id = none;
    governance_basis_id = none;
    target_system = authorization.target_system;
    operation = operation;
    subject_ref = c.subject_ref;
    reversibility = reversibility;
    authority_class = authorization.authority_class;
    status = EffectStatus.planned;
    provider_ref = none;
    created_at = now;
    updated_at = now;
  })

-- The copy that every transition below makes: a new status, the next version, a new time.
abbrev pub moved_to : Timestamp → AdministrativeCase → CaseStatus → AdministrativeCase
moved_to now c status = record c { status = status; version = c.version + 1; updated_at = now }

unfoldable pub begin_execution :
    Timestamp → AdministrativeCase → Outcome TransitionError AdministrativeCase
begin_execution now c = do
  raise_if (not (c.status == CaseStatus.authorized)) execution_status
  ok (moved_to now c CaseStatus.executing)

unfoldable pub begin_verification :
    Timestamp → AdministrativeCase → Outcome TransitionError AdministrativeCase
begin_verification now c = do
  raise_if (not (c.status == CaseStatus.executing)) verification_status
  ok (moved_to now c CaseStatus.verifying)

unfoldable pub begin_reconciliation :
    Timestamp → AdministrativeCase → Outcome TransitionError AdministrativeCase
begin_reconciliation now c = do
  raise_if (not ((c.status == CaseStatus.executing) || (c.status == CaseStatus.verifying)))
      reconciliation_status
  ok (moved_to now c CaseStatus.reconciling)

unfoldable pub resume_verification :
    Timestamp → AdministrativeCase → Outcome TransitionError AdministrativeCase
resume_verification now c = do
  raise_if (not (c.status == CaseStatus.reconciling)) resume_verification_status
  ok (moved_to now c CaseStatus.verifying)

-- A count below one is 0: the callers pass lengths.
unfoldable pub complete_verified_case :
    Timestamp → AdministrativeCase → ℕ → ℕ → Outcome TransitionError AdministrativeCase
complete_verified_case now c expected_effect_count verified_outcome_count = do
  raise_if (not (c.status == CaseStatus.verifying)) completion_status
  raise_if (ltb expected_effect_count 1) no_planned_effect
  raise_if (not (verified_outcome_count == expected_effect_count)) unverified_effect
  ok (moved_to now c CaseStatus.completed)

unfoldable pub fail_execution :
    Timestamp → AdministrativeCase → Outcome TransitionError AdministrativeCase
fail_execution now c = do
  raise_if
      (not (
        (c.status == CaseStatus.authorized)
        || ((c.status == CaseStatus.executing)
            || ((c.status == CaseStatus.verifying) || (c.status == CaseStatus.reconciling)))))
      failure_status
  ok (moved_to now c CaseStatus.failed)
