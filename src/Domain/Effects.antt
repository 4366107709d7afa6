-- ===== src/Domain/Effects.antt =====
-- EffectRecord, EffectRealizationAssessment and ConfirmedOutcome.
use administrative_orchestra.Base.{
  List, Option, Outcome, Text, Timestamp, Uuid, is_empty, nat_eq, ok, option_eq, raise_if,
  string_eq, ℕ, ◌&&◌, ◌==◌, ◌>>◌,
}
use administrative_orchestra.Domain.Case.{EvidenceRef}
use administrative_orchestra.Domain.Kinds.{
  AuthorityClass, EffectReversibility, EffectStatus, RealizationDisposition, authority_class_eq,
  realization_eq, status_eq,
}

pub record EffectRecord : Type 0 where
  pub effect_id : Uuid
  pub case_id : Uuid
  pub case_version : ℕ
  pub authority_epoch : ℕ
  pub authorization_id : Uuid
  pub obligation_id : Option Uuid
  pub governance_basis_id : Option Uuid
  pub target_system : Text
  pub operation : Text
  pub subject_ref : Text
  pub reversibility : EffectReversibility
  pub authority_class : AuthorityClass
  pub status : EffectStatus
  pub provider_ref : Option Text
  pub created_at : Timestamp
  pub updated_at : Timestamp

pub record EffectRealizationAssessment : Type 0 where
  pub assessment_id : Uuid
  pub effect_id : Uuid
  pub disposition : RealizationDisposition
  pub evidence : List EvidenceRef
  pub assessed_at : Timestamp

pub data EvidenceError : Type 0 where
  verified_without_evidence outcome_without_evidence : EvidenceError

-- `EffectRealizationAssessment.verified_requires_evidence`
unfoldable pub validate_realization :
    EffectRealizationAssessment → Outcome EvidenceError EffectRealizationAssessment
validate_realization r = do
  raise_if ((r.disposition == RealizationDisposition.verified) && is_empty r.evidence)
      verified_without_evidence
  ok r

pub record ConfirmedOutcome : Type 0 where
  pub outcome_id : Uuid
  pub case_id : Uuid
  pub case_version : ℕ
  pub authority_epoch : ℕ
  pub effect_id : Uuid
  pub realization_assessment_id : Uuid
  pub outcome_kind : Text
  pub evidence : List EvidenceRef
  pub confirmed_at : Timestamp

-- `ConfirmedOutcome.outcome_requires_evidence`
unfoldable pub validate_outcome : ConfirmedOutcome → Outcome EvidenceError ConfirmedOutcome
validate_outcome o = do raise_if (is_empty o.evidence) outcome_without_evidence; ok o
