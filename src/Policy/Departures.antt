-- ===== src/Policy/Departures.antt =====
-- Statements about the offboarding evaluator of policy.py as a whole function.
use administrative_orchestra.Base.{
  All, Bool-cases, Dict, List, Option, Text, [], arith, false, inl, inr, is_blank, list_eq, lower,
  nat_eq, none, ok, option_eq, refl, some, str_beq_iff, string_eq, strip, subst, sym, true, ◌==◌,
  ◌||◌, ◌↔◌, ◌∙◌, ◌∷◌, ◌≡◌, ◌⊎◌,
}
use administrative_orchestra.Domain.{PolicyRef, Value, get_value, policy_eq, status_eq}
use administrative_orchestra.Policy.Evaluation.{PolicyDisposition, PolicyEvaluation, disposition_eq}
use administrative_orchestra.Policy.Offboarding.{
  OffboardingFacts, OffboardingPolicyDefinition, evaluate_offboarding, fact_present,
  missing_offboarding_facts, normal_status, offboarding_evaluation, offboarding_fields,
  reopen_evaluation, status_evaluation,
}
use administrative_orchestra.Policy.Soundness.{rule_for, validated}

-- A fact is given: no null and no text of spaces only.
abbrev pub IsGiven : Value → Type 0
IsGiven Value.null = ⊥
IsGiven (Value.text t) = is_blank (strip t) ≡ false
IsGiven (Value.texts ts) = Unit
IsGiven (Value.flag b) = Unit
IsGiven (Value.number n) = Unit

-- Every required authoritative fact is given.
abbrev pub AreGiven : OffboardingPolicyDefinition → OffboardingFacts → Type 0
AreGiven definition facts =
    All (λ name. IsGiven (get_value name (offboarding_fields facts)))
      definition.required_authoritative_facts

-- The termination status is one of two texts, but for case and spaces around it.
abbrev pub IsLeaving : Option Text → Type 0
IsLeaving none = ⊥
IsLeaving (some t) = (lower (strip t) ≡ "termination_scheduled") ⊎ (lower (strip t) ≡ "terminated")

-- What an offboarding evaluation asks for, by the facts.
abbrev pub AsksForDecision :
    OffboardingPolicyDefinition → OffboardingFacts → PolicyEvaluation → Type 0
AsksForDecision definition facts e =
    (e.disposition ≡ PolicyDisposition.human_decision_required)
    × AreGiven definition facts
    × IsLeaving facts.termination_status
    × (e.required_decision_roles
        ≡ (rule_for definition.standard_approval definition.privileged_approval
            facts.requires_privileged_access).roles)
    × (e.allowed_effects ≡ definition.base_effects)

-- More facts are asked for if some are not given, and a reopening if the person is not leaving.
abbrev pub AllowsNothing :
    OffboardingPolicyDefinition → OffboardingFacts → PolicyEvaluation → Type 0
AllowsNothing definition facts e =
    (((e.disposition ≡ PolicyDisposition.need_more_facts) × ¬ (AreGiven definition facts))
      ⊎ ((e.disposition ≡ PolicyDisposition.reopen_required)
          × AreGiven definition facts
          × ¬ (IsLeaving facts.termination_status)))
    × (e.allowed_effects ≡ [])

present-IsGiven : (v : Value) → (fact_present v ≡ true) ↔ IsGiven v
unfolding fact_present
present-IsGiven Value.null = (λ h. cc, λ g. absurd g)
present-IsGiven (Value.text t) = (λ h. ground (arith, h), λ g. ground (arith, g))
present-IsGiven (Value.texts ts) = (λ h. tt, λ g. refl)
present-IsGiven (Value.flag b) = (λ h. tt, λ g. refl)
present-IsGiven (Value.number n) = (λ h. tt, λ g. refl)

none_missing :
    (fields : Dict Text Value) (names : List Text)
    → (missing_offboarding_facts fields names ≡ [])
      ↔ All (λ name. IsGiven (get_value name fields)) names
unfolding missing_offboarding_facts
none_missing fields [] = (λ h. tt, λ g. refl)
none_missing fields (name ∷ names) =
    let (into, back) = present-IsGiven (get_value name fields) in
    let (rest, again) = none_missing fields names in
    elim (Bool-cases (fact_present (get_value name fields))) [
      | inl given ↦ (λ h. (into given, rest (rw given at h)), λ g. rw given (again g.1))
      | inr lacking ↦ (
        λ h. absurd (nonempty_absurd (rw lacking at h)),
        λ g. absurd (true_is_not_false (sym (back g.0) ∙ lacking)),
      )
    ]
  where
    nonempty_absurd : {x : Text} {xs : List Text} → x ∷ xs ≡ [] → ⊥
    nonempty_absurd h = cc

    true_is_not_false : true ≡ false → ⊥
    true_is_not_false h = cc

IsLeaving-iff :
    (status : Option Text)
    → (((normal_status status == "termination_scheduled") || (normal_status status == "terminated"))
        ≡ true)
      ↔ IsLeaving status
unfolding normal_status
IsLeaving-iff none = (λ h. cc, λ l. absurd l)
IsLeaving-iff (some t) = (
  λ h. ground (
    arith,
    h,
    str_beq_iff (lower (strip t)) "termination_scheduled",
    str_beq_iff (lower (strip t)) "terminated",
  ),
  λ l. ground (
    arith,
    l,
    str_beq_iff (lower (strip t)) "termination_scheduled",
    str_beq_iff (lower (strip t)) "terminated",
  ),
)

-- The evaluation of a status, by its texts.
abbrev StatusOutcome :
    PolicyEvaluation → OffboardingPolicyDefinition → OffboardingFacts → Text → Type 0
StatusOutcome e definition facts status =
    ((((status == "termination_scheduled") || (status == "terminated")) ≡ true)
      × (e.disposition ≡ PolicyDisposition.human_decision_required)
      × (e.required_decision_roles
          ≡ (rule_for definition.standard_approval definition.privileged_approval
              facts.requires_privileged_access).roles)
      × (e.allowed_effects ≡ definition.base_effects))
    ⊎ ((((status == "termination_scheduled") || (status == "terminated")) ≡ false)
        × (e.disposition ≡ PolicyDisposition.reopen_required)
        × (e.allowed_effects ≡ []))

stays_not_leaving :
    (status : Text)
    → ((status == "active") || (status == "termination_cancelled")) ≡ true
    → ((status == "termination_scheduled") || (status == "terminated")) ≡ false
stays_not_leaving status h = elim (Bool-cases (status == "active")) [
  | inl active ↦
      subst (λ s. ((s == "termination_scheduled") || (s == "terminated")) ≡ false)
        (sym ((str_beq_iff status "active").0 active)) refl
  | inr other ↦
      subst (λ s. ((s == "termination_scheduled") || (s == "terminated")) ≡ false)
        (sym ((str_beq_iff status "termination_cancelled").0 (rw other at h))) refl
]

status_outcome :
    (ref : PolicyRef) (definition : OffboardingPolicyDefinition) (facts : OffboardingFacts)
    (status : Text)
    → StatusOutcome (status_evaluation ref definition facts status) definition facts status
unfolding status_evaluation reopen_evaluation
status_outcome ref definition facts status =
    let staying = (status == "active") || (status == "termination_cancelled") in
    let leaving = (status == "termination_scheduled") || (status == "terminated") in
    elim (Bool-cases staying) [
      | inl stays ↦
          let remains = stays_not_leaving status stays in rw stays (inr (remains, refl, refl))
      | inr moves ↦ rw moves (elim (Bool-cases leaving) [
        | inl leaves ↦ rw leaves (inl (refl, refl, refl, refl))
        | inr unknown ↦ rw unknown (inr (refl, refl, refl))
      ])
    ]

offboarding_evaluation_gate :
    (ref : PolicyRef) (definition : OffboardingPolicyDefinition) (facts : OffboardingFacts)
    (m : List Text)
    → m
      ≡ missing_offboarding_facts (offboarding_fields facts) definition.required_authoritative_facts
    → let e = offboarding_evaluation ref definition facts m in
      AsksForDecision definition facts e ⊎ AllowsNothing definition facts e
unfolding offboarding_evaluation
offboarding_evaluation_gate ref definition facts [] p =
    let (given, back) =
      none_missing (offboarding_fields facts) definition.required_authoritative_facts in
    let (leaving, left) = IsLeaving-iff facts.termination_status in
    elim (status_outcome ref definition facts (normal_status facts.termination_status)) [
      | inl (l, d, r, e) ↦ inl (d, given (sym p), leaving l, r, e)
      | inr (l, d, e) ↦ inr (inr (d, given (sym p), λ k. true_is_not_false (sym (left k) ∙ l)), e)
    ]
  where
    true_is_not_false : true ≡ false → ⊥
    true_is_not_false h = cc
offboarding_evaluation_gate ref definition facts (n ∷ ns) p =
    let (given, back) =
      none_missing (offboarding_fields facts) definition.required_authoritative_facts in
    inr (inl (refl, λ g. nonempty_absurd (p ∙ back g)), refl)
  where
    nonempty_absurd : n ∷ ns ≡ [] → ⊥
    nonempty_absurd h = cc

-- An offboarding evaluation that returns does one of three things. If every required authoritative
-- fact is given, neither null nor blank, and the termination status is, but for case and spaces
-- around it, termination_scheduled or terminated, it asks for a human decision by the roles of the
-- rule that the privilege flag selects, and allows the base effects. If a required fact is not given
-- it asks for more facts, and else for a reopening; then it allows no effect.
pub offboarding_gate :
    (ref : PolicyRef) (definition : OffboardingPolicyDefinition) (facts : OffboardingFacts)
    {e : PolicyEvaluation}
    → evaluate_offboarding ref definition facts ≡ ok e
    → AsksForDecision definition facts e ⊎ AllowsNothing definition facts e
unfolding evaluate_offboarding
offboarding_gate ref definition facts {e} h =
    let missing =
      missing_offboarding_facts (offboarding_fields facts)
        definition.required_authoritative_facts in
    rw (validated (offboarding_evaluation ref definition facts missing) h)
      (offboarding_evaluation_gate ref definition facts missing refl)
