-- ===== src/Cases/Gate.antt =====
-- The evaluators of policy.py with `apply_policy_evaluation` of service.py.
use administrative_orchestra.Authority.Roles.{asks}
use administrative_orchestra.Base.{
  Bool-cases, Timestamp, ap, arith, if◌then◌else◌, inl, inr, is_empty, ok, ok_injective, some, sym,
  ◌∙◌, ◌≡◌, ◌⊎◌,
}
use administrative_orchestra.Cases.Transitions.{apply_policy_evaluation}
use administrative_orchestra.Domain.{AdministrativeCase, CaseStatus, PolicyRef}
use administrative_orchestra.Policy.{
  OffboardingFacts, OffboardingPolicyDefinition, OnboardingFacts, OnboardingPolicyDefinition,
  PolicyEvaluation, evaluate_offboarding, evaluate_onboarding, onboarding_fields,
}
use administrative_orchestra.Policy.Departures.{
  AreGiven, AsksForDecision, IsLeaving, offboarding_gate,
}
use administrative_orchestra.Policy.Soundness.{
  AreFields, AreRules, evaluate_onboarding_total, null_names,
}

-- An onboarding evaluation over valid rules, applied to a case, leads to a pending decision if every
-- required fact is given, and to gathering facts if some required fact is `None`, under the policy
-- that was evaluated.
pub onboarding_proposes :
    (now : Timestamp) (c : AdministrativeCase) (ref : PolicyRef)
    (definition : OnboardingPolicyDefinition) (facts : OnboardingFacts) {e : PolicyEvaluation}
    {d : AdministrativeCase}
    → AreRules definition.standard_approval definition.privileged_approval
    → AreFields (onboarding_fields facts) definition.required_facts
    → evaluate_onboarding ref definition facts ≡ ok e
    → apply_policy_evaluation now c e ≡ ok d
    → (d.status ≡ (
        if is_empty (null_names (onboarding_fields facts) definition.required_facts)
        then CaseStatus.awaiting_decision
        else CaseStatus.gathering_facts))
      × (d.policy_ref ≡ some ref)
unfolding apply_policy_evaluation
onboarding_proposes now c ref definition facts {e} {d} r f q h =
    let nulls = null_names (onboarding_fields facts) definition.required_facts in
    let (e', runs, same_ref, missing, disposition, required, allowed) =
      evaluate_onboarding_total ref definition facts r f in
    let is_it : e' ≡ e = ok_injective e' e _ runs q in
    let of_e : e.policy_ref ≡ ref = sym (ap (λ x. x.policy_ref) is_it) ∙ same_ref in
    let asked = sym (ap (λ x. x.disposition) is_it) ∙ disposition in
    elim (Bool-cases (is_empty nulls)) [
      | inl complete ↦ rw complete (ground (arith, of_e, rw complete at asked, h))
      | inr lacking ↦ rw lacking (ground (arith, of_e, rw lacking at asked, h))
    ]

-- An offboarding evaluation, applied to a case, leads to a pending decision if it asks for one: every
-- required authoritative fact is given, neither null nor blank, the termination status is scheduled
-- or terminated, and the base effects are allowed. If a required fact is not given it leads to
-- gathering facts, and if all are but the status is another it leads to reopening.
pub offboarding_proposes :
    (now : Timestamp) (c : AdministrativeCase) (ref : PolicyRef)
    (definition : OffboardingPolicyDefinition) (facts : OffboardingFacts) {e : PolicyEvaluation}
    {d : AdministrativeCase}
    → evaluate_offboarding ref definition facts ≡ ok e
    → apply_policy_evaluation now c e ≡ ok d
    → ((d.status ≡ CaseStatus.awaiting_decision) × AsksForDecision definition facts e)
      ⊎ (((d.status ≡ CaseStatus.gathering_facts) × ¬ (AreGiven definition facts))
          ⊎ ((d.status ≡ CaseStatus.reopen_required)
              × AreGiven definition facts
              × ¬ (IsLeaving facts.termination_status)))
unfolding apply_policy_evaluation
offboarding_proposes now c ref definition facts {e} {d} q h =
    elim (offboarding_gate ref definition facts q) [
      | inl asks ↦ let asked = asks.0 in inl (ground (arith, asked, h), asks)
      | inr (inl (lacks, missing), none_allowed) ↦ inr (inl (ground (arith, lacks, h), missing))
      | inr (inr (reopens, given, stays), none_allowed) ↦
          inr (inr (ground (arith, reopens, h), given, stays))
    ]
