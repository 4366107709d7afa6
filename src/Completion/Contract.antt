-- ===== src/Completion/Contract.antt =====
-- What completion (completion.py) demands of each required obligation, apart from how the code looks
-- for it.
use administrative_orchestra.Base.{
  Any, Uuid, false, nat_eq, option_eq, some, string_eq, true, ◌&&◌, ◌==◌, ◌≡◌, ◌⊎◌,
}
use administrative_orchestra.Completion.Latest.{last_of}
use administrative_orchestra.Completion.Obligations.{
  AdministrativeObligation, EffectObligationLink, ObligationDomainStateFulfillment, is_domain_state,
}
use administrative_orchestra.Completion.Requirements.{Evidence, required_kind}
use administrative_orchestra.Domain.{
  ConfirmedOutcome, EffectRealizationAssessment, EffectRecord, RealizationDisposition,
  realization_eq,
}

-- How an obligation that needs an external effect is discharged: by the effect it is linked to, an
-- outcome of that effect of the required kind, and the realization that the outcome names.
pub record IsEffected (v : Evidence) (id : Uuid) (o : AdministrativeObligation) : Type 0 where
  pub link : EffectObligationLink
  pub linked : last_of (λ l. id == l.obligation_id) v.links ≡ some link
  pub effect : EffectRecord
  pub planned : last_of (λ e. link.effect_id == e.effect_id) v.effects ≡ some effect
  pub same_system : effect.target_system ≡ o.target_system
  pub same_operation : effect.operation ≡ o.required_operation
  pub same_subject : effect.subject_ref ≡ o.subject_ref
  pub same_class : effect.authority_class ≡ o.authority_class
  pub outcome : ConfirmedOutcome
  pub confirmed : Any (λ c. c ≡ outcome) v.outcomes
  pub of_effect : outcome.effect_id ≡ effect.effect_id
  pub of_kind : outcome.outcome_kind ≡ required_kind o
  pub realization : EffectRealizationAssessment
  pub assessed :
      last_of (λ r. outcome.realization_assessment_id == r.assessment_id) v.realizations
      ≡ some realization
  pub realizes : realization.effect_id ≡ effect.effect_id
  pub verified : realization.disposition ≡ RealizationDisposition.verified

-- A fulfillment by state of the domain, for the case and the epoch of the obligations.
pub record IsFulfillment (v : Evidence) (id : Uuid) (f : ObligationDomainStateFulfillment)
    : Type 0 where
  pub of_obligation : f.obligation_id ≡ id
  pub same_case : f.case_id ≡ v.obligation_set.case_id
  pub same_epoch : f.authority_epoch ≡ v.obligation_set.authority_epoch

-- A required obligation is discharged by state of the domain if that is its kind, and else by an
-- effect.
abbrev pub IsDischarged : Evidence → Uuid × AdministrativeObligation → Type 0
IsDischarged v (id, o) =
    ((is_domain_state o.fulfillment_kind ≡ true) × Any (IsFulfillment v id) v.fulfillments)
    ⊎ ((is_domain_state o.fulfillment_kind ≡ false) × IsEffected v id o)

-- An obligation is in force under an id if it is the last required one of the set with the id.
abbrev pub InForce : Evidence → Uuid → AdministrativeObligation → Type 0
InForce v id o =
    last_of (λ x. x.required && (id == x.obligation_id)) v.obligation_set.obligations ≡ some o
