-- ===== src/Policy/Soundness.antt =====
-- Statements about the two evaluators of policy.py as whole functions.
use administrative_orchestra.Base.{
  >>=-eq-ok, All, Bool, Dict, List, Text, [], arith, if◌then◌else◌, inl, inr, is_empty, keep,
  list_eq, lookup, map, map_err, nat_eq, ok, option_eq, refl, string_eq, true, ◌++◌, ◌∷◌, ◌≡◌, ◌⊎◌,
}
use administrative_orchestra.Domain.{PolicyRef, Value, get_value, is_some, policy_eq}
use administrative_orchestra.Policy.Evaluation.{
  PolicyDisposition, PolicyEvaluation, disposition_eq, validate_evaluation,
}
use administrative_orchestra.Policy.Onboarding.{
  OnboardingFacts, OnboardingPolicyDefinition, evaluate_onboarding, missing_onboarding_facts,
  onboarding_evaluation, onboarding_fields, provision,
}
use administrative_orchestra.Policy.Rules.{ApprovalRule, invalid_evaluation, is_null, validate_rule}

-- Both rules of a definition have passed `ApprovalRule`'s validator.
pub record AreRules (standard privileged : ApprovalRule) : Type 0 where
  pub standard_valid : validate_rule standard ≡ ok standard
  pub privileged_valid : validate_rule privileged ≡ ok privileged

-- Each required name is a field of the model.
abbrev pub AreFields : Dict Text Value → List Text → Type 0
AreFields fields names = All (λ name. is_some (lookup name fields) ≡ true) names

-- The names whose field is `None`, as a filter.
abbrev pub null_names : Dict Text Value → List Text → List Text
null_names fields = keep (λ name. is_null (get_value name fields))

missing-null_names :
    (fields : Dict Text Value) (names : List Text)
    → AreFields fields names
    → missing_onboarding_facts fields names ≡ ok (null_names fields names)
unfolding missing_onboarding_facts
missing-null_names fields [] h = refl
missing-null_names fields (name ∷ names) h = ground (arith, missing-null_names fields names h.1)

onboarding_evaluation_valid :
    (ref : PolicyRef) (definition : OnboardingPolicyDefinition) (facts : OnboardingFacts)
    (missing : List Text)
    → AreRules definition.standard_approval definition.privileged_approval
    → let e = onboarding_evaluation ref definition facts missing in validate_evaluation e ≡ ok e
unfolding onboarding_evaluation validate_evaluation validate_rule
onboarding_evaluation_valid ref definition facts [] r = ground arith
onboarding_evaluation_valid ref definition facts (n ∷ ns) r = ground arith

-- The rule that the privilege flag selects.
abbrev pub rule_for : ApprovalRule → ApprovalRule → Bool → ApprovalRule
rule_for standard privileged privileged_access = if privileged_access then privileged else standard

onboarding_shape :
    (ref : PolicyRef) (definition : OnboardingPolicyDefinition) (facts : OnboardingFacts)
    (missing : List Text)
    → let e = onboarding_evaluation ref definition facts missing in
      (e.policy_ref ≡ ref)
      × (e.missing_facts ≡ missing)
      × (e.disposition ≡ (
          if is_empty missing
          then PolicyDisposition.human_decision_required
          else PolicyDisposition.need_more_facts))
      × (e.required_decision_roles ≡ (
          if is_empty missing
          then (rule_for definition.standard_approval definition.privileged_approval
              facts.requires_privileged_access).roles
          else []))
      × (e.allowed_effects ≡ (
          if is_empty missing
          then definition.base_effects ++ map provision facts.requested_systems
          else []))
unfolding onboarding_evaluation
onboarding_shape ref definition facts [] = (refl, refl, refl, refl, refl)
onboarding_shape ref definition facts (n ∷ ns) = (refl, refl, refl, refl, refl)

-- Over a definition with valid rules whose required facts are fields of the model, the onboarding
-- evaluation never raises. It reports exactly the required facts that are `None`. If there are some
-- it asks for more facts and allows no effect; else it asks for a human decision by the roles of
-- the rule that the privilege flag selects, and allows the base effects and one account for each
-- requested system.
pub evaluate_onboarding_total :
    (ref : PolicyRef) (definition : OnboardingPolicyDefinition) (facts : OnboardingFacts)
    → AreRules definition.standard_approval definition.privileged_approval
    → AreFields (onboarding_fields facts) definition.required_facts
    → let nulls = null_names (onboarding_fields facts) definition.required_facts in
      (e : PolicyEvaluation) × (evaluate_onboarding ref definition facts ≡ ok e)
      × (e.policy_ref ≡ ref)
      × (e.missing_facts ≡ nulls)
      × (e.disposition ≡ (
          if is_empty nulls
          then PolicyDisposition.human_decision_required
          else PolicyDisposition.need_more_facts))
      × (e.required_decision_roles ≡ (
          if is_empty nulls
          then (rule_for definition.standard_approval definition.privileged_approval
              facts.requires_privileged_access).roles
          else []))
      × (e.allowed_effects ≡ (
          if is_empty nulls
          then definition.base_effects ++ map provision facts.requested_systems
          else []))
unfolding evaluate_onboarding
evaluate_onboarding_total ref definition facts r f =
    let nulls = null_names (onboarding_fields facts) definition.required_facts in
    let runs : evaluate_onboarding ref definition facts
        ≡ ok (onboarding_evaluation ref definition facts nulls) =
      rw (missing-null_names (onboarding_fields facts) definition.required_facts f)
        (rw (onboarding_evaluation_valid ref definition facts nulls r)) in
    let shape = onboarding_shape ref definition facts nulls in
    (
      onboarding_evaluation ref definition facts nulls,
      runs,
      shape.0,
      shape.1,
      shape.2,
      shape.3,
      shape.4,
    )

pub validated :
    (e : PolicyEvaluation) {f : PolicyEvaluation}
    → map_err invalid_evaluation (validate_evaluation e) ≡ ok f
    → f ≡ e
unfolding validate_evaluation
validated e h = ground arith

-- An onboarding evaluation that returns asks for more facts or for a human decision.
pub onboarding_asks :
    (ref : PolicyRef) (definition : OnboardingPolicyDefinition) (facts : OnboardingFacts)
    {e : PolicyEvaluation}
    → evaluate_onboarding ref definition facts ≡ ok e
    → (e.disposition ≡ PolicyDisposition.need_more_facts)
      ⊎ (e.disposition ≡ PolicyDisposition.human_decision_required)
unfolding evaluate_onboarding
onboarding_asks ref definition facts {e} h =
    let (missing, m, v) =
      >>=-eq-ok (missing_onboarding_facts (onboarding_fields facts) definition.required_facts)
        (λ missing.
          map_err invalid_evaluation
            (validate_evaluation (onboarding_evaluation ref definition facts missing)))
        h in
    go missing (validated (onboarding_evaluation ref definition facts missing) v)
  where
    go :
        (missing : List Text)
        → e ≡ onboarding_evaluation ref definition facts missing
        → (e.disposition ≡ PolicyDisposition.need_more_facts)
          ⊎ (e.disposition ≡ PolicyDisposition.human_decision_required)
    go [] p = inr (rw p refl)
    go (n ∷ ns) p = inl (rw p refl)
