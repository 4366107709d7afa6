-- ===== src/Policy/Onboarding.antt =====
-- OnboardingFacts and OnboardingPolicy of policy.py.
use administrative_orchestra.Base.{
  Bool, Dict, List, Option, Outcome, Text, [], false, if◌then◌else◌, lookup, map, map_err, nat_eq,
  none, ok, option_eq, or_raise, string_eq, true, ◌++◌, ◌>>=◌, ◌∷◌,
}
use administrative_orchestra.Domain.{
  AuthorityClass, PolicyRef, Value, authority_class_eq, policy_eq,
}
use administrative_orchestra.Policy.Evaluation.{
  AuthorizedEffectTemplate, PolicyDisposition, PolicyEvaluation, disposition_eq,
  validate_evaluation,
}
use administrative_orchestra.Policy.Rules.{
  ApprovalRule, PolicyError, invalid_evaluation, is_null, no_attribute, optional_text,
}

pub record OnboardingFacts : Type 0 where
  pub employee_ref : Text
  pub department_ref : Option Text
  pub manager_principal_id : Option Text
  pub start_date : Option Text
  pub employment_type : Option Text
  pub requested_systems : List Text
  pub requires_privileged_access : Bool

pub record OnboardingPolicyDefinition : Type 0 where
  pub required_facts : List Text
  pub standard_approval : ApprovalRule
  pub privileged_approval : ApprovalRule
  pub base_effects : List AuthorizedEffectTemplate

-- The fields of the model by name, as `getattr` finds them.
abbrev pub onboarding_fields : OnboardingFacts → Dict Text Value
onboarding_fields f =
    ("employee_ref", Value.text f.employee_ref)
    ∷ ("department_ref", optional_text f.department_ref)
    ∷ ("manager_principal_id", optional_text f.manager_principal_id)
    ∷ ("start_date", optional_text f.start_date)
    ∷ ("employment_type", optional_text f.employment_type)
    ∷ ("requested_systems", Value.texts f.requested_systems)
    ∷ ("requires_privileged_access", Value.flag f.requires_privileged_access)
    ∷ []

-- The names, in order, whose field is `None`.
unfoldable pub missing_onboarding_facts :
    Dict Text Value → List Text → Outcome PolicyError (List Text)
missing_onboarding_facts fields [] = ok []
missing_onboarding_facts fields (name ∷ names) = do
  value ← or_raise (lookup name fields) (no_attribute name)
  rest ← missing_onboarding_facts fields names
  ok (if is_null value then name ∷ rest else rest)

abbrev pub provision : Text → AuthorizedEffectTemplate
provision system = record {
  target_system = system;
  operation = "account.provision";
  authority_class = AuthorityClass.normal;
}

-- The evaluation with missing facts, and the one that asks for a decision.
unfoldable pub onboarding_evaluation :
    PolicyRef → OnboardingPolicyDefinition → OnboardingFacts → List Text → PolicyEvaluation
onboarding_evaluation ref definition facts (name ∷ names) = record {
  policy_ref = ref;
  disposition = PolicyDisposition.need_more_facts;
  reason = "required onboarding facts are missing";
  missing_facts = name ∷ names;
  required_decision_roles = [];
  require_distinct_decision_principals = false;
  allowed_effects = [];
  reopen_reason = none;
}
onboarding_evaluation ref definition facts [] =
    let rule =
      if facts.requires_privileged_access
      then definition.privileged_approval
      else definition.standard_approval in
    record {
      policy_ref = ref;
      disposition = PolicyDisposition.human_decision_required;
      reason =
          if facts.requires_privileged_access
          then "privileged access requires the configured multi-party approval rule"
          else "employment creation requires the configured current approval rule";
      missing_facts = [];
      required_decision_roles = rule.roles;
      require_distinct_decision_principals = rule.require_distinct_principals;
      allowed_effects = definition.base_effects ++ map provision facts.requested_systems;
      reopen_reason = none;
    }

-- `OnboardingPolicy.evaluate`
unfoldable pub evaluate_onboarding :
    PolicyRef → OnboardingPolicyDefinition → OnboardingFacts → Outcome PolicyError PolicyEvaluation
unfolding onboarding_evaluation
evaluate_onboarding ref definition facts = do
  missing ← missing_onboarding_facts (onboarding_fields facts) definition.required_facts
  map_err invalid_evaluation
      (validate_evaluation (onboarding_evaluation ref definition facts missing))

-- `OnboardingPolicy.default_definition`
unfoldable pub default_onboarding_definition : OnboardingPolicyDefinition
default_onboarding_definition = record {
  required_facts =
      "department_ref" ∷ "manager_principal_id" ∷ "start_date" ∷ "employment_type" ∷ [];
  standard_approval = record { roles = "hr_approver" ∷ []; require_distinct_principals = false };
  privileged_approval = record {
    roles = "manager" ∷ "access_approver" ∷ [];
    require_distinct_principals = true;
  };
  base_effects =
      record {
        target_system = "hris";
        operation = "employee.create";
        authority_class = AuthorityClass.employment;
      }
      ∷ record {
        target_system = "iam";
        operation = "identity.create";
        authority_class = AuthorityClass.privileged_access;
      }
      ∷ [];
}
