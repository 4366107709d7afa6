-- ===== src/Persistence/Records.antt =====
-- The rows of persistence.py and fact_history.py. A row of a case holds the fields of the case.
use administrative_orchestra.Base.{Dict, List, Text, Timestamp, Uuid, ℕ}
use administrative_orchestra.Domain.{
  AdministrativeCase, CaseStatus, FactAuthority, FactSnapshot, PolicyRef, Value,
}
use administrative_orchestra.Messaging.{Outbox}
use administrative_orchestra.Policy.{PolicyDisposition, PolicyEvaluation}

-- `CaseStatus.value`
abbrev pub status_text : CaseStatus → Text
status_text CaseStatus.received = "received"
status_text CaseStatus.gathering_facts = "gathering_facts"
status_text CaseStatus.ready_for_policy = "ready_for_policy"
status_text CaseStatus.awaiting_decision = "awaiting_decision"
status_text CaseStatus.authorized = "authorized"
status_text CaseStatus.executing = "executing"
status_text CaseStatus.verifying = "verifying"
status_text CaseStatus.reconciling = "reconciling"
status_text CaseStatus.reopen_required = "reopen_required"
status_text CaseStatus.waiting = "waiting"
status_text CaseStatus.completed = "completed"
status_text CaseStatus.cancelled = "cancelled"
status_text CaseStatus.failed = "failed"

-- `PolicyDisposition.value`
abbrev pub disposition_text : PolicyDisposition → Text
disposition_text PolicyDisposition.auto_closable = "auto_closable"
disposition_text PolicyDisposition.human_decision_required = "human_decision_required"
disposition_text PolicyDisposition.need_more_facts = "need_more_facts"
disposition_text PolicyDisposition.reopen_required = "reopen_required"
disposition_text PolicyDisposition.denied = "denied"

-- `FactAuthority.value`
abbrev pub fact_authority_text : FactAuthority → Text
fact_authority_text FactAuthority.claim = "claim"
fact_authority_text FactAuthority.attested = "attested"
fact_authority_text FactAuthority.authoritative = "authoritative"

pub record AuditEvent : Type 0 where
  pub case_id : Uuid
  pub event_type : Text
  pub payload : Dict Text Value
  pub occurred_at : Timestamp

pub record PolicyEvaluationRow : Type 0 where
  pub case_id : Uuid
  pub case_version : ℕ
  pub authority_epoch : ℕ
  pub policy_ref : PolicyRef
  pub evaluation : PolicyEvaluation
  pub created_at : Timestamp

pub record FactSnapshotHistoryRow : Type 0 where
  pub snapshot : FactSnapshot
  pub case_id : Uuid
  pub case_version : ℕ
  pub authority_epoch : ℕ
  pub recorded_at : Timestamp

-- The tables that a transaction on a case writes.
pub record CaseStore : Type 0 where
  pub cases : List AdministrativeCase
  pub evaluations : List PolicyEvaluationRow
  pub snapshots : List FactSnapshotHistoryRow
  pub audit : List AuditEvent
  pub outbox : Outbox (Dict Text Value)

pub data PersistenceError : Type 0 where
  case_not_found version_conflict epoch_conflict snapshot_reused : PersistenceError
  other_case version_not_advanced epoch_not_advanced policy_differs : PersistenceError
  snapshot_required snapshot_not_new : PersistenceError
