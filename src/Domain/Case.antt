-- ===== src/Domain/Case.antt =====
-- AdministrativeRequest, AdministrativeCase, Decision and ExecutionAuthorization.
use administrative_orchestra.Base.{
  Bool, Dict, List, Option, Outcome, Text, Timestamp, Uuid, false, is_empty, leb, list_eq, ltb,
  nat_eq, none, not, ok, option_eq, raise_if, some, string_eq, true, ℕ, ◌&&◌, ◌==◌, ◌>>◌,
}
use administrative_orchestra.Domain.Authority.{PolicyRef, policy_eq}
use administrative_orchestra.Domain.Facts.{FactSnapshot, Value}
use administrative_orchestra.Domain.Kinds.{
  AuthorityClass, CaseStatus, DecisionDisposition, ReopenReason, authority_class_eq, decision_eq,
  status_eq,
}

pub record EvidenceRef : Type 0 where
  pub evidence_id : Uuid
  pub source : Text
  pub owner : Text
  pub observed_at : Timestamp
  pub version : Option Text
  pub digest : Option Text
  pub metadata : Dict Text Value

pub record AdministrativeRequest : Type 0 where
  pub request_id : Uuid
  pub requester_principal_id : Text
  pub channel : Text
  pub intent : Text
  pub received_at : Timestamp
  pub source_ref : Option Text

pub record AdministrativeCase : Type 0 where
  pub case_id : Uuid
  pub case_kind : Text
  pub requester_principal_id : Text
  pub subject_ref : Text
  pub status : CaseStatus
  pub version : ℕ
  pub authority_epoch : ℕ
  pub fact_snapshot : Option FactSnapshot
  pub policy_ref : Option PolicyRef
  pub evidence : List EvidenceRef
  pub reopen_reason : Option ReopenReason
  pub created_at : Timestamp
  pub updated_at : Timestamp

abbrev pub is_some {ℓ} : {A : Type ℓ} → Option A → Bool
is_some none = false
is_some (some _) = true

pub data CaseError : Type 0 where
  counters_not_positive missing_reopen_reason stray_reopen_reason : CaseError

-- `AdministrativeCase.validate_case`
unfoldable pub validate_case : AdministrativeCase → Outcome CaseError AdministrativeCase
validate_case c = do
  raise_if (ltb c.version 1) counters_not_positive
  raise_if (ltb c.authority_epoch 1) counters_not_positive
  raise_if ((c.status == CaseStatus.reopen_required) && not (is_some c.reopen_reason))
      missing_reopen_reason
  raise_if (not (c.status == CaseStatus.reopen_required) && is_some c.reopen_reason)
      stray_reopen_reason
  ok c

pub record Decision : Type 0 where
  pub decision_id : Uuid
  pub case_id : Uuid
  pub case_version : ℕ
  pub authority_epoch : ℕ
  pub principal_id : Text
  pub decision_role : Option Text
  pub disposition : DecisionDisposition
  pub rationale : Text
  pub policy_ref : PolicyRef
  pub decided_at : Timestamp

pub record ExecutionAuthorization : Type 0 where
  pub authorization_id : Uuid
  pub case_id : Uuid
  pub case_version : ℕ
  pub authority_epoch : ℕ
  pub decision_id : Option Uuid
  pub approval_satisfaction_id : Option Uuid
  pub issuer_principal_id : Text
  pub target_system : Text
  pub subject_ref : Text
  pub allowed_operations : List Text
  pub authority_class : AuthorityClass
  pub policy_ref : PolicyRef
  pub issued_at : Timestamp
  pub expires_at : Option Timestamp
  pub revoked_at : Option Timestamp

pub data AuthorizationError : Type 0 where
  no_operations basis_not_single : AuthorizationError

-- `ExecutionAuthorization.validate_authority_basis_and_operations`: exactly one of the two bases.
unfoldable pub validate_authorization :
    ExecutionAuthorization → Outcome AuthorizationError ExecutionAuthorization
validate_authorization a = do
  raise_if (is_empty a.allowed_operations) no_operations
  raise_if (is_some a.decision_id && is_some a.approval_satisfaction_id) basis_not_single
  raise_if (not (is_some a.decision_id) && not (is_some a.approval_satisfaction_id))
      basis_not_single
  ok a

abbrev not_revoked : Option Timestamp → Timestamp → Bool
not_revoked none at = true
not_revoked (some revoked) at = not (leb revoked at)

abbrev not_expired : Option Timestamp → Timestamp → Bool
not_expired none at = true
not_expired (some expires) at = ltb at expires

-- `ExecutionAuthorization.is_current_at`
abbrev pub authorization_current : ExecutionAuthorization → Timestamp → Bool
authorization_current a at = not_revoked a.revoked_at at && not_expired a.expires_at at
