-- ===== src/Completion/Assessment.antt =====
-- `_assess_obligations` of completion.py. Its five lists are a state that the loop over the required
-- obligations passes on.
use administrative_orchestra.Base.{
  Dict, List, Option, Text, Uuid, [], if◌then◌else◌, is_empty, keep, lookup, nat_eq, none, not,
  option_eq, some, string_eq, ◌++◌, ◌==◌, ◌∷◌,
}
use administrative_orchestra.Completion.Obligations.{
  AdministrativeObligation, EffectObligationLink, is_domain_state,
}
use administrative_orchestra.Completion.Requirements.{
  CompletionAssessment, Evidence, effect_by_id, fulfillment_by_obligation, is_realized,
  link_by_obligation, outcomes_of, required_kind, required_obligations, serves,
}
use administrative_orchestra.Domain.{EffectRecord, is_some}

pub record Gaps : Type 0 where
  pub uncovered : List Uuid
  pub missing_confirmed : List Uuid
  pub missing_kinds : List Text
  pub missing_realizations : List Uuid
  pub missing_domain_state : List Uuid

abbrev pub no_gaps : Gaps
no_gaps = record {
  uncovered = [];
  missing_confirmed = [];
  missing_kinds = [];
  missing_realizations = [];
  missing_domain_state = [];
}

abbrev pub add_uncovered : Uuid → Gaps → Gaps
add_uncovered id g = record g { uncovered = g.uncovered ++ id ∷ [] }

-- The end of the loop's body, from `effect_outcomes` on.
unfoldable pub check_outcomes : Evidence → Uuid → AdministrativeObligation → Uuid → Gaps → Gaps
check_outcomes v id o effect_id g =
    let found = outcomes_of effect_id v in
    let matching = keep (λ c. c.outcome_kind == required_kind o) found in
    let h =
      if is_empty found
      then record g { missing_confirmed = g.missing_confirmed ++ id ∷ [] }
      else g in
    if is_empty matching
    then record h { missing_kinds = h.missing_kinds ++ required_kind o ∷ [] }
    else if not (is_realized effect_id v matching)
    then record h { missing_realizations = h.missing_realizations ++ id ∷ [] }
    else h

-- The part of the body from the link on.
abbrev pub check_effect :
    Evidence → Uuid → AdministrativeObligation → Option EffectRecord → Gaps → Gaps
check_effect v id o none g = add_uncovered id g
check_effect v id o (some e) g =
    if serves e o then check_outcomes v id o e.effect_id g else add_uncovered id g

abbrev pub linked_effect : Evidence → Option EffectObligationLink → Option EffectRecord
linked_effect v none = none
linked_effect v (some l) = lookup l.effect_id (effect_by_id v)

-- The body of the loop.
unfoldable pub check_obligation : Evidence → Uuid → AdministrativeObligation → Gaps → Gaps
check_obligation v id o g =
    if is_domain_state o.fulfillment_kind
    then if is_some (lookup id (fulfillment_by_obligation v))
      then g
      else record g { missing_domain_state = g.missing_domain_state ++ id ∷ [] }
    else check_effect v id o (linked_effect v (lookup id (link_by_obligation v))) g

unfoldable pub check_all : Evidence → Dict Uuid AdministrativeObligation → Gaps → Gaps
check_all v [] g = g
check_all v ((id, o) ∷ entries) g = check_all v entries (check_obligation v id o g)

abbrev reason_if {ℓ} : {A : Type ℓ} → List A → Text → List Text
reason_if [] reason = []
reason_if (x ∷ xs) reason = reason ∷ []

unfoldable pub blocking_reasons : Gaps → List Text
blocking_reasons g =
    reason_if g.uncovered "one or more required business obligations are not covered by an effect"
    ++ (reason_if g.missing_confirmed
          "one or more required business obligations lack a confirmed outcome"
        ++ (reason_if g.missing_kinds
              "one or more required business outcome kinds are not confirmed"
            ++ (reason_if g.missing_realizations
                  "one or more confirmed outcomes lack a verified realization for the same effect"
                ++ reason_if g.missing_domain_state
                    "one or more required domain-state obligations lack verified Administrative state")))

-- `_assess_obligations`; `str` gives the text of a UUID.
unfoldable pub assess_obligations : (Uuid → Text) → Evidence → CompletionAssessment
assess_obligations str v =
    let g = check_all v (required_obligations v) no_gaps in
    let reasons = blocking_reasons g in
    record {
      requirement_id = str v.obligation_set.requirement_id;
      satisfied = is_empty reasons;
      missing_effect_ids = [];
      missing_outcome_kinds = g.missing_kinds;
      missing_obligation_ids = g.missing_confirmed;
      uncovered_obligation_ids = g.uncovered;
      missing_realization_obligation_ids = g.missing_realizations;
      missing_domain_state_obligation_ids = g.missing_domain_state;
      governance_basis_id = some v.obligation_set.governance_basis_id;
      blocking_reasons = reasons;
    }
