-- ===== src/Policy/Offboarding.antt =====
-- OffboardingFacts and OffboardingPolicy of policy.py. A status is compared with four words of
-- ASCII letters after `strip().lower()`; no other character has one of those letters as its whole
-- lower case, so lowering the ASCII letters decides the same comparisons.
use administrative_orchestra.Base.{
  Bool, Dict, List, Option, Outcome, Text, [], any, concat, contains, false, if◌then◌else◌,
  is_blank, lower, map_err, nat_eq, none, not, ok, option_eq, raise_if, some, string_eq, strip,
  true, ◌==◌, ◌>>◌, ◌||◌, ◌∷◌,
}
use administrative_orchestra.Domain.{
  AuthorityClass, PolicyRef, ReopenReason, Value, authority_class_eq, get_value, policy_eq,
  status_eq,
}
use administrative_orchestra.Policy.Evaluation.{
  AuthorizedEffectTemplate, PolicyDisposition, PolicyEvaluation, disposition_eq,
  validate_evaluation,
}
use administrative_orchestra.Policy.Rules.{
  ApprovalRule, PolicyError, invalid_evaluation, optional_text,
}

pub record OffboardingFacts : Type 0 where
  pub employee_ref : Text
  pub termination_status : Option Text
  pub termination_effective_at : Option Text
  pub employment_type : Option Text
  pub department_ref : Option Text
  pub manager_principal_id : Option Text
  pub employment_episode_ref : Option Text
  pub departing_principal_id : Option Text
  pub successor_principal_id : Option Text
  pub requested_termination_date : Option Text
  pub reason : Option Text
  pub requested_systems : List Text
  pub requires_privileged_access : Bool

pub record OffboardingPolicyDefinition : Type 0 where
  pub required_authoritative_facts : List Text
  pub standard_approval : ApprovalRule
  pub privileged_approval : ApprovalRule
  pub base_effects : List AuthorizedEffectTemplate
  pub transfer_required_roles : List Text
  pub revoke_only_roles : List Text
  pub effective_time_fact : Text

pub data DefinitionError : Type 0 where
  role_in_both_classes : DefinitionError

-- `OffboardingPolicyDefinition.validate_transfer_classification`
unfoldable pub validate_transfer_classification :
    OffboardingPolicyDefinition → Outcome DefinitionError OffboardingPolicyDefinition
validate_transfer_classification d = do
  raise_if (any (contains d.revoke_only_roles) d.transfer_required_roles) role_in_both_classes
  ok d

abbrev pub offboarding_fields : OffboardingFacts → Dict Text Value
offboarding_fields f =
    ("employee_ref", Value.text f.employee_ref)
    ∷ ("termination_status", optional_text f.termination_status)
    ∷ ("termination_effective_at", optional_text f.termination_effective_at)
    ∷ ("employment_type", optional_text f.employment_type)
    ∷ ("department_ref", optional_text f.department_ref)
    ∷ ("manager_principal_id", optional_text f.manager_principal_id)
    ∷ ("employment_episode_ref", optional_text f.employment_episode_ref)
    ∷ ("departing_principal_id", optional_text f.departing_principal_id)
    ∷ ("successor_principal_id", optional_text f.successor_principal_id)
    ∷ ("requested_termination_date", optional_text f.requested_termination_date)
    ∷ ("reason", optional_text f.reason)
    ∷ ("requested_systems", Value.texts f.requested_systems)
    ∷ ("requires_privileged_access", Value.flag f.requires_privileged_access)
    ∷ []

-- `_fact_present`: the text of a Boolean, a number or a tuple is never blank.
unfoldable pub fact_present : Value → Bool
fact_present Value.null = false
fact_present (Value.text t) = not (is_blank (strip t))
fact_present _ = true

-- A name that is no field reads as `None`.
unfoldable pub missing_offboarding_facts : Dict Text Value → List Text → List Text
unfolding fact_present
missing_offboarding_facts fields [] = []
missing_offboarding_facts fields (name ∷ names) =
    let rest = missing_offboarding_facts fields names in
    if fact_present (get_value name fields) then rest else name ∷ rest

-- `str(facts.termination_status or "").strip().lower()`
unfoldable pub normal_status : Option Text → Text
normal_status none = ""
normal_status (some t) = lower (strip t)

unfoldable pub reopen_evaluation : PolicyRef → Text → ReopenReason → PolicyEvaluation
reopen_evaluation ref reason reopen_reason = record {
  policy_ref = ref;
  disposition = PolicyDisposition.reopen_required;
  reason = reason;
  missing_facts = [];
  required_decision_roles = [];
  require_distinct_decision_principals = false;
  allowed_effects = [];
  reopen_reason = some reopen_reason;
}

-- The evaluation once every required fact is present, by the normalised status.
unfoldable pub status_evaluation :
    PolicyRef → OffboardingPolicyDefinition → OffboardingFacts → Text → PolicyEvaluation
unfolding reopen_evaluation
status_evaluation ref definition facts status =
    let rule =
      if facts.requires_privileged_access
      then definition.privileged_approval
      else definition.standard_approval in
    if (status == "active") || (status == "termination_cancelled")
    then reopen_evaluation ref
        "the authoritative HR source does not currently schedule a termination"
        ReopenReason.governance_stale
    else if not ((status == "termination_scheduled") || (status == "terminated"))
    then reopen_evaluation ref
        (concat (concat "unsupported authoritative termination status: '" status) "'")
        ReopenReason.reality_mismatch
    else record {
      policy_ref = ref;
      disposition = PolicyDisposition.human_decision_required;
      reason =
          if facts.requires_privileged_access
          then "privileged access offboarding requires the configured multi-party approval rule"
          else "employment termination requires the configured current approval rule";
      missing_facts = [];
      required_decision_roles = rule.roles;
      require_distinct_decision_principals = rule.require_distinct_principals;
      allowed_effects = definition.base_effects;
      reopen_reason = none;
    }

unfoldable pub offboarding_evaluation :
    PolicyRef → OffboardingPolicyDefinition → OffboardingFacts → List Text → PolicyEvaluation
unfolding normal_status status_evaluation
offboarding_evaluation ref definition facts (name ∷ names) = record {
  policy_ref = ref;
  disposition = PolicyDisposition.need_more_facts;
  reason = "authoritative termination facts are missing";
  missing_facts = name ∷ names;
  required_decision_roles = [];
  require_distinct_decision_principals = false;
  allowed_effects = [];
  reopen_reason = none;
}
offboarding_evaluation ref definition facts [] =
    status_evaluation ref definition facts (normal_status facts.termination_status)

-- `OffboardingPolicy.evaluate`
unfoldable pub evaluate_offboarding :
    PolicyRef
    → OffboardingPolicyDefinition
    → OffboardingFacts
    → Outcome PolicyError PolicyEvaluation
unfolding offboarding_evaluation
evaluate_offboarding ref definition facts =
    let missing =
      missing_offboarding_facts (offboarding_fields facts)
        definition.required_authoritative_facts in
    map_err invalid_evaluation
      (validate_evaluation (offboarding_evaluation ref definition facts missing))

-- `OffboardingPolicy.default_definition`
unfoldable pub default_offboarding_definition : OffboardingPolicyDefinition
default_offboarding_definition = record {
  required_authoritative_facts =
      "employee_ref" ∷ "termination_status" ∷ "termination_effective_at" ∷ [];
  standard_approval = record { roles = "hr_approver" ∷ []; require_distinct_principals = false };
  privileged_approval = record {
    roles = "manager" ∷ "access_approver" ∷ [];
    require_distinct_principals = true;
  };
  base_effects =
      record {
        target_system = "hris";
        operation = "employee.deactivate";
        authority_class = AuthorityClass.employment;
      }
      ∷ record {
        target_system = "iam";
        operation = "identity.disable";
        authority_class = AuthorityClass.privileged_access;
      }
      ∷ record {
        target_system = "iam";
        operation = "sessions.revoke";
        authority_class = AuthorityClass.privileged_access;
      }
      ∷ [];
  transfer_required_roles = "manager" ∷ [];
  revoke_only_roles = "hr_approver" ∷ "access_approver" ∷ [];
  effective_time_fact = "termination_effective_at";
}
