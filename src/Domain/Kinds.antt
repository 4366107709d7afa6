-- ===== src/Domain/Kinds.antt =====
-- The enumerations of domain.py. An enumeration is compared by its place in the class.
use administrative_orchestra.Base.{Eq, arith, nat_beq, nat_eq, string_eq, true, ℕ, ◌↔◌, ◌≡◌}

pub data PrincipalKind : Type 0 where
  person service agent : PrincipalKind

pub data CaseStatus : Type 0 where
  received gathering_facts ready_for_policy awaiting_decision authorized executing verifying :
      CaseStatus
  reconciling reopen_required waiting completed cancelled failed : CaseStatus

pub data ReopenReason : Type 0 where
  no_applicable_policy policy_conflict missing_required_fact authority_unresolved : ReopenReason
  policy_underspecified governance_stale subject_changed outcome_unknown : ReopenReason
  reality_mismatch scope_expansion unknown_risk_dimension obligation_stalled : ReopenReason
  commitment_conflict late_evidence human_requested_review : ReopenReason

pub data DecisionDisposition : Type 0 where
  approve reject request_changes escalate : DecisionDisposition

pub data EffectReversibility : Type 0 where
  read_only reversible correctable irreversible unknown : EffectReversibility

pub data AuthorityClass : Type 0 where
  normal pii financial privileged_access employment legal regulated : AuthorityClass

pub data EffectStatus : Type 0 where
  planned dispatched succeeded failed outcome_unknown : EffectStatus

pub data RealizationDisposition : Type 0 where
  verified not_verified mismatch unknown : RealizationDisposition

pub data FactAuthority : Type 0 where
  claim attested authoritative : FactAuthority

abbrev pub status_index : CaseStatus → ℕ
status_index CaseStatus.received = 0
status_index CaseStatus.gathering_facts = 1
status_index CaseStatus.ready_for_policy = 2
status_index CaseStatus.awaiting_decision = 3
status_index CaseStatus.authorized = 4
status_index CaseStatus.executing = 5
status_index CaseStatus.verifying = 6
status_index CaseStatus.reconciling = 7
status_index CaseStatus.reopen_required = 8
status_index CaseStatus.waiting = 9
status_index CaseStatus.completed = 10
status_index CaseStatus.cancelled = 11
status_index CaseStatus.failed = 12

pub status_beq_iff :
    (a b : CaseStatus) → (nat_beq (status_index a) (status_index b) ≡ true) ↔ (a ≡ b)
status_beq_iff a b = (λ h. ground arith, λ h. ground arith)

instance abbrev pub status_eq : Eq CaseStatus
status_eq = record {
  beq = λ a b. nat_beq (status_index a) (status_index b);
  beq_iff = status_beq_iff;
}

abbrev pub decision_index : DecisionDisposition → ℕ
decision_index DecisionDisposition.approve = 0
decision_index DecisionDisposition.reject = 1
decision_index DecisionDisposition.request_changes = 2
decision_index DecisionDisposition.escalate = 3

pub decision_beq_iff :
    (a b : DecisionDisposition) → (nat_beq (decision_index a) (decision_index b) ≡ true) ↔ (a ≡ b)
decision_beq_iff a b = (λ h. ground arith, λ h. ground arith)

instance abbrev pub decision_eq : Eq DecisionDisposition
decision_eq = record {
  beq = λ a b. nat_beq (decision_index a) (decision_index b);
  beq_iff = decision_beq_iff;
}

abbrev pub authority_class_index : AuthorityClass → ℕ
authority_class_index AuthorityClass.normal = 0
authority_class_index AuthorityClass.pii = 1
authority_class_index AuthorityClass.financial = 2
authority_class_index AuthorityClass.privileged_access = 3
authority_class_index AuthorityClass.employment = 4
authority_class_index AuthorityClass.legal = 5
authority_class_index AuthorityClass.regulated = 6

pub authority_class_beq_iff :
    (a b : AuthorityClass)
    → (nat_beq (authority_class_index a) (authority_class_index b) ≡ true) ↔ (a ≡ b)
authority_class_beq_iff a b = (λ h. ground arith, λ h. ground arith)

instance abbrev pub authority_class_eq : Eq AuthorityClass
authority_class_eq = record {
  beq = λ a b. nat_beq (authority_class_index a) (authority_class_index b);
  beq_iff = authority_class_beq_iff;
}

abbrev pub realization_index : RealizationDisposition → ℕ
realization_index RealizationDisposition.verified = 0
realization_index RealizationDisposition.not_verified = 1
realization_index RealizationDisposition.mismatch = 2
realization_index RealizationDisposition.unknown = 3

pub realization_beq_iff :
    (a b : RealizationDisposition)
    → (nat_beq (realization_index a) (realization_index b) ≡ true) ↔ (a ≡ b)
realization_beq_iff a b = (λ h. ground arith, λ h. ground arith)

instance abbrev pub realization_eq : Eq RealizationDisposition
realization_eq = record {
  beq = λ a b. nat_beq (realization_index a) (realization_index b);
  beq_iff = realization_beq_iff;
}

abbrev pub fact_authority_index : FactAuthority → ℕ
fact_authority_index FactAuthority.claim = 0
fact_authority_index FactAuthority.attested = 1
fact_authority_index FactAuthority.authoritative = 2

pub fact_authority_beq_iff :
    (a b : FactAuthority)
    → (nat_beq (fact_authority_index a) (fact_authority_index b) ≡ true) ↔ (a ≡ b)
fact_authority_beq_iff a b = (λ h. ground arith, λ h. ground arith)

instance abbrev pub fact_authority_eq : Eq FactAuthority
fact_authority_eq = record {
  beq = λ a b. nat_beq (fact_authority_index a) (fact_authority_index b);
  beq_iff = fact_authority_beq_iff;
}
