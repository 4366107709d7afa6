-- ===== src/Completion/Requirements.antt =====
-- CompletionAssessment of completion.py, and what a required obligation is matched with.
use administrative_orchestra.Base.{
  Bool, Dict, List, Option, Text, Uuid, [], any, concat, false, insert, keep, lookup, nat_eq, none,
  option_eq, some, string_eq, ◌&&◌, ◌==◌, ◌∷◌,
}
use administrative_orchestra.Completion.Obligations.{
  AdministrativeObligation, AdministrativeObligationSet, EffectObligationLink,
  ObligationDomainStateFulfillment,
}
use administrative_orchestra.Domain.{
  ConfirmedOutcome, EffectRealizationAssessment, EffectRecord, RealizationDisposition,
  authority_class_eq, realization_eq,
}

pub record CompletionAssessment : Type 0 where
  pub requirement_id : Text
  pub satisfied : Bool
  pub missing_effect_ids : List Uuid
  pub missing_outcome_kinds : List Text
  pub missing_obligation_ids : List Uuid
  pub uncovered_obligation_ids : List Uuid
  pub missing_realization_obligation_ids : List Uuid
  pub missing_domain_state_obligation_ids : List Uuid
  pub governance_basis_id : Option Uuid
  pub blocking_reasons : List Text

-- `{key(x): x for x in xs}`: the last element of a key is kept, at the place of the first.
abbrev pub index_by : {A : Type 0} → (A → Uuid) → Dict Uuid A → List A → Dict Uuid A
index_by key d [] = d
index_by key d (x ∷ xs) = index_by key (insert (key x) x d) xs

-- What `_assess_obligations` is called with.
pub record Evidence : Type 0 where
  pub obligation_set : AdministrativeObligationSet
  pub effects : List EffectRecord
  pub outcomes : List ConfirmedOutcome
  pub realizations : List EffectRealizationAssessment
  pub links : List EffectObligationLink
  pub fulfillments : List ObligationDomainStateFulfillment

unfoldable pub required_obligations : Evidence → Dict Uuid AdministrativeObligation
required_obligations v =
    index_by (λ o. o.obligation_id) [] (keep (λ o. o.required) v.obligation_set.obligations)

unfoldable pub effect_by_id : Evidence → Dict Uuid EffectRecord
effect_by_id v = index_by (λ e. e.effect_id) [] v.effects

unfoldable pub realization_by_id : Evidence → Dict Uuid EffectRealizationAssessment
realization_by_id v = index_by (λ r. r.assessment_id) [] v.realizations

unfoldable pub link_by_obligation : Evidence → Dict Uuid EffectObligationLink
link_by_obligation v = index_by (λ l. l.obligation_id) [] v.links

-- A fulfillment of the set's case and epoch.
abbrev pub is_current_fulfillment :
    AdministrativeObligationSet → ObligationDomainStateFulfillment → Bool
is_current_fulfillment s f = (f.case_id == s.case_id) && (f.authority_epoch == s.authority_epoch)

unfoldable pub fulfillment_by_obligation : Evidence → Dict Uuid ObligationDomainStateFulfillment
fulfillment_by_obligation v =
    index_by (λ f. f.obligation_id) []
      (keep (is_current_fulfillment v.obligation_set) v.fulfillments)

-- `outcomes_by_effect.get(effect_id, [])`
unfoldable pub outcomes_of : Uuid → Evidence → List ConfirmedOutcome
outcomes_of effect_id v = keep (λ o. o.effect_id == effect_id) v.outcomes

-- `f"{target_system}.{required_operation}.verified"`
abbrev pub required_kind : AdministrativeObligation → Text
required_kind o = concat o.target_system (concat "." (concat o.required_operation ".verified"))

-- The effect is the one that the obligation asks for: the negation of the guard in the loop.
abbrev pub serves : EffectRecord → AdministrativeObligation → Bool
serves e o =
    ((e.target_system == o.target_system) && (e.operation == o.required_operation))
    && ((e.subject_ref == o.subject_ref) && (e.authority_class == o.authority_class))

abbrev pub is_verified_for : Uuid → Option EffectRealizationAssessment → Bool
is_verified_for effect_id none = false
is_verified_for effect_id (some r) =
    (r.effect_id == effect_id) && (r.disposition == RealizationDisposition.verified)

-- Some of the outcomes has a verified realization for the effect.
abbrev pub is_realized : Uuid → Evidence → List ConfirmedOutcome → Bool
is_realized effect_id v =
    any (λ o. is_verified_for effect_id (lookup o.realization_assessment_id (realization_by_id v)))
