-- ===== src/Tests/Writes.antt =====
-- Transactions on a concrete case.
use administrative_orchestra.Base.{
  Bool, Text, Uuid, [], arith, false, is_ok, nat_eq, none, ok, option_eq, refl, some, string_eq,
  ◌+◌, ◌==◌, ◌∷◌, ◌≡◌,
}
use administrative_orchestra.Cases.{
  apply_policy_evaluation, replace_facts_for_reevaluation, start_policy_evaluation,
}
use administrative_orchestra.Domain.{
  AdministrativeCase, CaseStatus, FactAuthority, FactSnapshot, fact_authority_eq, policy_eq,
  status_eq,
}
use administrative_orchestra.Persistence.{
  CaseStore, apply_policy_transition, copy_case_into_row, facts_replaced, find_case,
  persist_fact_snapshot, policy_applied, replace_facts_and_apply_policy, require_version,
}
use administrative_orchestra.Persistence.Acceptance.{evaluated_stored, reevaluated_stored}
use administrative_orchestra.Persistence.Conflicts.{
  Attempt, Method, perform, perform_all, perform_once,
}
use administrative_orchestra.Tests.Samples.{needs_decision, opened}

abbrev shown : Uuid → Text
shown id = "id"

abbrev same_id : FactSnapshot → FactSnapshot → Bool
same_id a b = a.snapshot_id == b.snapshot_id

abbrev snapshot : FactSnapshot
snapshot = record {
  snapshot_id = 80;
  source = "hris";
  owner = "hr";
  authority = FactAuthority.attested;
  source_ref = none;
  source_version = none;
  observed_at = 30;
  facts = [];
  assertions = [];
  digest = none;
}

abbrev ready : AdministrativeCase
ready = record opened { status = CaseStatus.ready_for_policy; version = 2 }

-- The case after the evaluation of its policy.
abbrev decidable : AdministrativeCase
decidable = record ready {
  policy_ref = some needs_decision.policy_ref;
  version = 3;
  authority_epoch = 2;
  updated_at = 40;
  status = CaseStatus.awaiting_decision;
}

abbrev with_facts : AdministrativeCase
with_facts = record ready {
  fact_snapshot = some snapshot;
  status = CaseStatus.gathering_facts;
  version = 3;
  authority_epoch = 2;
  updated_at = 41;
}

abbrev ready_again : AdministrativeCase
ready_again = record with_facts {
  status = CaseStatus.ready_for_policy;
  version = 4;
  updated_at = 42;
}

abbrev decidable_again : AdministrativeCase
decidable_again = record ready_again {
  policy_ref = some needs_decision.policy_ref;
  version = 5;
  authority_epoch = 3;
  updated_at = 43;
  status = CaseStatus.awaiting_decision;
}

abbrev store : CaseStore
store = record {
  cases = ready ∷ [];
  evaluations = [];
  snapshots = [];
  audit = [];
  outbox = record { rows = []; audits = [] };
}

write_program : Unit {0}
unfolding apply_policy_evaluation replace_facts_for_reevaluation start_policy_evaluation
    apply_policy_transition replace_facts_and_apply_policy policy_applied facts_replaced
    persist_fact_snapshot copy_case_into_row require_version
write_program = tt

transitions :
    (apply_policy_evaluation 40 ready needs_decision ≡ ok decidable)
    × ((replace_facts_for_reevaluation 41 ready snapshot ≡ ok with_facts)
        × ((start_policy_evaluation 42 with_facts ≡ ok ready_again)
            × (apply_policy_evaluation 43 ready_again needs_decision ≡ ok decidable_again)))
unfolding write_program
transitions = (refl, (refl, (refl, refl)))

evaluated_stored_example :
    (store' : CaseStore) × ((apply_policy_transition shown same_id 50 90 ready decidable
          needs_decision store
        ≡ ok store')
      × (find_case 7 store'.cases ≡ some decidable))
evaluated_stored_example =
    evaluated_stored shown same_id 40 50 90 ready decidable needs_decision store transitions.0 refl

reevaluated_stored_example :
    (store' : CaseStore) × ((replace_facts_and_apply_policy shown same_id 50 90 ready
          decidable_again needs_decision store
        ≡ ok store')
      × (find_case 7 store'.cases ≡ some decidable_again))
reevaluated_stored_example =
    reevaluated_stored shown same_id 41 42 43 50 90 ready with_facts ready_again decidable_again
      snapshot needs_decision store transitions.1.0 transitions.1.1.0 transitions.1.1.1 refl refl
      refl

abbrev evaluation_attempt : Attempt
evaluation_attempt = record {
  method = Method.policy_transition;
  now = 50;
  event_id = 90;
  before = ready;
  after = decidable;
  evaluation = needs_decision;
}

abbrev facts_attempt : Attempt
facts_attempt = record {
  method = Method.facts_replacement;
  now = 51;
  event_id = 91;
  before = ready;
  after = decidable_again;
  evaluation = needs_decision;
}

first_performed :
    perform shown same_id evaluation_attempt store
    ≡ ok (policy_applied shown same_id 50 90 ready decidable needs_decision store)
unfolding write_program
first_performed = refl

-- The write of the service that stores a case as it is read later.
abbrev later_update : Attempt
later_update = record facts_attempt {
  method = Method.update "case.updated" [];
  before = decidable;
  after = record decidable { version = decidable.version + 1 };
}

perform_once_example :
    is_ok (
      perform shown same_id facts_attempt (
        perform_all shown same_id
          (later_update ∷ [])
          (policy_applied shown same_id 50 90 ready decidable needs_decision store)))
    ≡ false
perform_once_example =
    perform_once shown same_id evaluation_attempt facts_attempt (later_update ∷ []) store
      (policy_applied shown same_id 50 90 ready decidable needs_decision store) tt tt
      ((refl, refl), tt) refl (ground arith) first_performed
