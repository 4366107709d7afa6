-- ===== src/Cases/Invariant.antt =====
-- Each transition of a case against the validator of AdministrativeCase (domain.py) and its counters.
use administrative_orchestra.Base.{
  Option, Text, Timestamp, arith, nat_eq, ok, option_eq, string_eq, ◌+◌, ◌==◌, ◌≡◌, ◌≤◌,
}
use administrative_orchestra.Cases.Lifecycle.{Action, apply, program}
use administrative_orchestra.Cases.Waiting.{ParsedTime}
use administrative_orchestra.Domain.{AdministrativeCase, CaseStatus, is_some, status_eq}
use administrative_orchestra.Policy.{
  PolicyDisposition, PolicyEvaluation, disposition_eq, validate_evaluation,
}

-- What `validate_case` demands of a record.
pub record IsValid (c : AdministrativeCase) : Type 0 where
  pub version_positive : 1 ≤ c.version
  pub epoch_positive : 1 ≤ c.authority_epoch
  pub reason_when_reopened : is_some c.reopen_reason ≡ (c.status == CaseStatus.reopen_required)

-- An evaluation in a run has passed its own validator.
abbrev pub IsAdmissible : Action → Type 0
IsAdmissible (Action.evaluation e) = validate_evaluation e ≡ ok e
IsAdmissible _ = Unit

reopen_reason_of_valid :
    (e : PolicyEvaluation)
    → validate_evaluation e ≡ ok e
    → is_some e.reopen_reason ≡ (e.disposition == PolicyDisposition.reopen_required)
unfolding validate_evaluation
reopen_reason_of_valid e h = ground arith

module _ (from_iso : Text → Option ParsedTime) (now : Timestamp) where
  -- A transition that succeeds on a valid case gives a valid case.
  pub apply-IsValid :
      (a : Action) (c : AdministrativeCase) {d : AdministrativeCase}
      → IsAdmissible a
      → IsValid c
      → apply from_iso now a c ≡ ok d
      → IsValid d
  unfolding program
  apply-IsValid (Action.evaluation e) c adm v h = ground (arith, reopen_reason_of_valid e adm)
  apply-IsValid a c adm v h = ground arith

  -- What a step leaves alone, and how it moves the two counters.
  pub record Moved (c d : AdministrativeCase) : Type 0 where
    pub same_case : d.case_id ≡ c.case_id
    pub same_kind : d.case_kind ≡ c.case_kind
    pub same_requester : d.requester_principal_id ≡ c.requester_principal_id
    pub same_subject : d.subject_ref ≡ c.subject_ref
    pub next_version : d.version ≡ c.version + 1
    pub epoch_up : c.authority_epoch ≤ d.authority_epoch
    pub epoch_by_one : d.authority_epoch ≤ c.authority_epoch + 1
    pub stamped : d.updated_at ≡ now

  -- A transition that succeeds keeps the identity, the kind, the requester and the subject of the
  -- case, raises its version by exactly one, never lowers its authority epoch, raises it by at most
  -- one, and stamps the case with the current time.
  pub apply-Moved :
      (a : Action) (c : AdministrativeCase) {d : AdministrativeCase}
      → apply from_iso now a c ≡ ok d
      → Moved c d
  unfolding program
  apply-Moved (Action.evaluation e) c h = ground arith
  apply-Moved a c h = ground arith
