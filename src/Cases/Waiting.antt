-- ===== src/Cases/Waiting.antt =====
-- service.py: the wait of an offboarding case for its authoritative effective time. Python's parser
-- of ISO 8601 texts, `datetime.fromisoformat`, is the argument `from_iso`: it fails, or gives a time
-- without a zone or one with its zone.
use mathlib.Core.Option
use administrative_orchestra.Base.{
  Option, Outcome, Text, Timestamp, if◌then◌else◌, is_blank, leb, lookup, ltb, nat_eq, none, not,
  ok, option_eq, or_raise, raise_if, some, string_eq, strip, zulu_to_offset, ◌==◌, ◌>>=◌, ◌>>◌,
}
use administrative_orchestra.Cases.Execution.{moved_to}
use administrative_orchestra.Cases.Transitions.{
  TransitionError, effective_time_not_reached, effective_time_passed, lost_effective_time,
  no_effective_time, resume_status, waiting_kind, waiting_status,
}
use administrative_orchestra.Domain.{
  AdministrativeCase, CaseStatus, FactAssertion, FactAuthority, Value, fact_authority_eq, status_eq,
}

pub data ParsedTime : Type 0 where
  naive : Timestamp → ParsedTime
  aware : Timestamp → ParsedTime

-- `replace(tzinfo=UTC)` for a time without a zone, and `astimezone(UTC)`.
abbrev pub in_utc : ParsedTime → Timestamp
in_utc (naive t) = t
in_utc (aware t) = t

unfoldable pub parse_effective_at : (Text → Option ParsedTime) → Value → Option Timestamp
parse_effective_at from_iso (Value.text t) =
    let stripped = strip t in
    if is_blank stripped then none else Option.map in_utc (from_iso (zulu_to_offset stripped))
parse_effective_at from_iso _ = none

abbrev asserted_time : (Text → Option ParsedTime) → Option FactAssertion → Option Timestamp
asserted_time from_iso none = none
asserted_time from_iso (some assertion) =
    if assertion.authority == FactAuthority.authoritative
    then parse_effective_at from_iso assertion.value
    else none

unfoldable pub authoritative_effective_time :
    (Text → Option ParsedTime) → AdministrativeCase → Option Timestamp
authoritative_effective_time from_iso c = elim c.fact_snapshot [
  | none ↦ none
  | some snapshot ↦ asserted_time from_iso (lookup "termination_effective_at" snapshot.assertions)
]

-- `now or utcnow()`: the test reads the time that is given, the stamp is the clock's.
abbrev given_or : Timestamp → Option Timestamp → Timestamp
given_or now none = now
given_or now (some given) = given

unfoldable pub begin_waiting_for_effective_time :
    (Text → Option ParsedTime)
    → Option Timestamp
    → Timestamp
    → AdministrativeCase
    → Outcome TransitionError AdministrativeCase
begin_waiting_for_effective_time from_iso given now c = do
  raise_if (not (c.case_kind == "employee-offboarding")) waiting_kind
  raise_if (not (c.status == CaseStatus.authorized)) waiting_status
  effective_at ← or_raise (authoritative_effective_time from_iso c) no_effective_time
  raise_if (leb effective_at (given_or now given)) effective_time_passed
  ok (moved_to now c CaseStatus.waiting)

unfoldable pub resume_from_waiting :
    (Text → Option ParsedTime)
    → Option Timestamp
    → Timestamp
    → AdministrativeCase
    → Outcome TransitionError AdministrativeCase
resume_from_waiting from_iso given now c = do
  raise_if (not (c.status == CaseStatus.waiting)) resume_status
  effective_at ← or_raise (authoritative_effective_time from_iso c) lost_effective_time
  raise_if (ltb (given_or now given) effective_at) effective_time_not_reached
  ok (moved_to now c CaseStatus.authorized)
