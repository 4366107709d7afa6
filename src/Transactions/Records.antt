-- ===== src/Transactions/Records.antt =====
-- AdministrativeCaseEvidenceLink and TransactionQualificationAssessment of financial.py, with the tables of
-- transaction_repository.py.
use administrative_orchestra.Base.{
  Dict, Eq, List, Option, Text, Timestamp, Uuid, arith, list_eq, nat_beq, nat_eq, option_eq,
  string_eq, true, ℕ, ◌↔◌, ◌≡◌,
}
use administrative_orchestra.Domain.{Value}
use administrative_orchestra.Messaging.{Outbox}
use administrative_orchestra.Persistence.{AuditEvent}

pub data TransactionQualificationResult : Type 0 where
  qualified incomplete mismatch ambiguous duplicate : TransactionQualificationResult

abbrev pub result_index : TransactionQualificationResult → ℕ
result_index TransactionQualificationResult.qualified = 0
result_index TransactionQualificationResult.incomplete = 1
result_index TransactionQualificationResult.mismatch = 2
result_index TransactionQualificationResult.ambiguous = 3
result_index TransactionQualificationResult.duplicate = 4

pub result_beq_iff :
    (a b : TransactionQualificationResult)
    → (nat_beq (result_index a) (result_index b) ≡ true) ↔ (a ≡ b)
result_beq_iff a b = (λ h. ground arith, λ h. ground arith)

instance abbrev pub result_eq : Eq TransactionQualificationResult
result_eq = record {
  beq = λ a b. nat_beq (result_index a) (result_index b);
  beq_iff = result_beq_iff;
}

-- `TransactionQualificationResult.value`
abbrev pub result_text : TransactionQualificationResult → Text
result_text TransactionQualificationResult.qualified = "qualified"
result_text TransactionQualificationResult.incomplete = "incomplete"
result_text TransactionQualificationResult.mismatch = "mismatch"
result_text TransactionQualificationResult.ambiguous = "ambiguous"
result_text TransactionQualificationResult.duplicate = "duplicate"

pub record AdministrativeCaseEvidenceLink : Type 0 where
  pub link_id : Uuid
  pub case_id : Uuid
  pub authority_epoch : ℕ
  pub artifact_ref : Uuid
  pub representation_ref : Option Uuid
  pub declared_role : Text
  pub source : Text
  pub linked_at : Timestamp
  pub linked_by : Text

pub record TransactionQualificationAssessment : Type 0 where
  pub assessment_id : Uuid
  pub case_id : Uuid
  pub authority_epoch : ℕ
  pub assessment_kind : Text
  pub supersedes_assessment_id : Option Uuid
  pub input_refs : List Text
  pub rule_ref : Text
  pub result : TransactionQualificationResult
  pub blocking_reasons : List Text
  pub created_at : Timestamp

-- The tables that the repository writes.
pub record TransactionStore : Type 0 where
  pub links : List AdministrativeCaseEvidenceLink
  pub assessments : List TransactionQualificationAssessment
  pub audit : List AuditEvent
  pub outbox : Outbox (Dict Text Value)

pub data TransactionRecordConflict : Type 0 where
  link_identity_reused link_semantics_exist : TransactionRecordConflict
  assessment_identity_reused target_missing : TransactionRecordConflict
  target_incompatible target_already_superseded : TransactionRecordConflict
  must_supersede_current multiple_current_assessments : TransactionRecordConflict
