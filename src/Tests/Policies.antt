-- ===== src/Tests/Policies.antt =====
-- Policy evaluations on concrete facts.
use administrative_orchestra.Base.{
  [], false, lower, none, ok, refl, some, strip, true, ◌++◌, ◌∷◌, ◌≡◌, ◌⊎◌,
}
use administrative_orchestra.Cases.{apply_policy_evaluation}
use administrative_orchestra.Cases.Gate.{offboarding_proposes, onboarding_proposes}
use administrative_orchestra.Domain.{AdministrativeCase, CaseStatus}
use administrative_orchestra.Policy.{
  OffboardingFacts, OnboardingFacts, PolicyDisposition, PolicyEvaluation,
  default_offboarding_definition, default_onboarding_definition, evaluate_offboarding,
  evaluate_onboarding, fact_present, missing_offboarding_facts, missing_onboarding_facts,
  offboarding_evaluation, onboarding_evaluation, onboarding_fields, provision, validate_evaluation,
  validate_rule,
}
use administrative_orchestra.Policy.Departures.{
  AllowsNothing, AreGiven, AsksForDecision, IsLeaving, offboarding_gate,
}
use administrative_orchestra.Policy.Soundness.{
  AreFields, AreRules, evaluate_onboarding_total, onboarding_asks,
}
use administrative_orchestra.Tests.Samples.{opened, policy}

abbrev newcomer : OnboardingFacts
newcomer = record {
  employee_ref = "emp-1";
  department_ref = some "hr";
  manager_principal_id = some "alice";
  start_date = some "2026-02-01";
  employment_type = some "regular";
  requested_systems = "mail" ∷ [];
  requires_privileged_access = true;
}

abbrev leaver : OffboardingFacts
leaver = record {
  employee_ref = "emp-1";
  termination_status = some "Terminated ";
  termination_effective_at = some "2026-03-01T00:00:00Z";
  employment_type = some "regular";
  department_ref = none;
  manager_principal_id = some "alice";
  employment_episode_ref = none;
  departing_principal_id = none;
  successor_principal_id = none;
  requested_termination_date = none;
  reason = none;
  requested_systems = [];
  requires_privileged_access = false;
}

abbrev joining : PolicyEvaluation
joining = onboarding_evaluation policy default_onboarding_definition newcomer []

abbrev leaving : PolicyEvaluation
leaving = offboarding_evaluation policy default_offboarding_definition leaver []

evaluations : Unit {0}
unfolding evaluate_onboarding missing_onboarding_facts onboarding_evaluation validate_evaluation
    validate_rule default_onboarding_definition evaluate_offboarding missing_offboarding_facts
    default_offboarding_definition fact_present strip lower
evaluations = tt

joining_evaluated : evaluate_onboarding policy default_onboarding_definition newcomer ≡ ok joining
unfolding evaluations
joining_evaluated = refl

leaving_evaluated : evaluate_offboarding policy default_offboarding_definition leaver ≡ ok leaving
unfolding evaluations
leaving_evaluated = refl

default-AreRules :
    AreRules default_onboarding_definition.standard_approval
      default_onboarding_definition.privileged_approval
unfolding evaluations
default-AreRules = record { standard_valid = refl; privileged_valid = refl }

default-AreFields :
    AreFields (onboarding_fields newcomer) default_onboarding_definition.required_facts
unfolding evaluations
default-AreFields = (refl, (refl, (refl, (refl, tt))))

onboarding_asks_example :
    (joining.disposition ≡ PolicyDisposition.need_more_facts)
    ⊎ (joining.disposition ≡ PolicyDisposition.human_decision_required)
onboarding_asks_example =
    onboarding_asks policy default_onboarding_definition newcomer joining_evaluated

offboarding_gate_example :
    AsksForDecision default_offboarding_definition leaver leaving
    ⊎ AllowsNothing default_offboarding_definition leaver leaving
offboarding_gate_example =
    offboarding_gate policy default_offboarding_definition leaver leaving_evaluated

evaluate_onboarding_total_example :
    (e : PolicyEvaluation) × (evaluate_onboarding policy default_onboarding_definition newcomer
      ≡ ok e)
    × (e.policy_ref ≡ policy)
    × (e.missing_facts ≡ [])
    × (e.disposition ≡ PolicyDisposition.human_decision_required)
    × (e.required_decision_roles ≡ "manager" ∷ "access_approver" ∷ [])
    × (e.allowed_effects ≡ default_onboarding_definition.base_effects ++ provision "mail" ∷ [])
unfolding default_onboarding_definition
evaluate_onboarding_total_example =
    evaluate_onboarding_total policy default_onboarding_definition newcomer default-AreRules
      default-AreFields

abbrev ready : AdministrativeCase
ready = record opened { status = CaseStatus.ready_for_policy }

abbrev evaluated : PolicyEvaluation → AdministrativeCase
evaluated e = record opened {
  status = CaseStatus.awaiting_decision;
  policy_ref = some policy;
  version = 2;
  authority_epoch = 2;
  updated_at = 30;
}

joining_applied : apply_policy_evaluation 30 ready joining ≡ ok (evaluated joining)
unfolding apply_policy_evaluation onboarding_evaluation
joining_applied = refl

leaving_applied : apply_policy_evaluation 30 ready leaving ≡ ok (evaluated leaving)
unfolding apply_policy_evaluation offboarding_evaluation evaluations
leaving_applied = refl

onboarding_proposes_example :
    ((evaluated joining).status ≡ CaseStatus.awaiting_decision)
    × ((evaluated joining).policy_ref ≡ some policy)
unfolding evaluations
onboarding_proposes_example =
    onboarding_proposes 30 ready policy default_onboarding_definition newcomer default-AreRules
      default-AreFields joining_evaluated joining_applied

offboarding_proposes_example :
    (((evaluated leaving).status ≡ CaseStatus.awaiting_decision)
      × AsksForDecision default_offboarding_definition leaver leaving)
    ⊎ ((((evaluated leaving).status ≡ CaseStatus.gathering_facts)
          × ¬ (AreGiven default_offboarding_definition leaver))
        ⊎ (((evaluated leaving).status ≡ CaseStatus.reopen_required)
            × AreGiven default_offboarding_definition leaver
            × ¬ (IsLeaving leaver.termination_status)))
offboarding_proposes_example =
    offboarding_proposes 30 ready policy default_offboarding_definition leaver leaving_evaluated
      leaving_applied
