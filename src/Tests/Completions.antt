-- ===== src/Tests/Completions.antt =====
-- Completion on a case with an external obligation and one of the domain.
use administrative_orchestra.Base.{Text, Uuid, [], false, none, refl, some, true, ◌↔◌, ◌∷◌, ◌≡◌}
use administrative_orchestra.Completion.{
  AdministrativeObligation, Evidence, ObligationDomainStateFulfillment, ObligationFulfillmentKind,
  assess_obligations, blocking_reasons, check_all, check_obligation, check_outcomes, effect_by_id,
  fulfillment_by_obligation, link_by_obligation, outcomes_of, realization_by_id,
  required_obligations,
}
use administrative_orchestra.Completion.Contract.{InForce, IsDischarged}
use administrative_orchestra.Completion.Discharge.{assess_obligations_lem}
use administrative_orchestra.Domain.{
  AuthorityClass, ConfirmedOutcome, EffectRealizationAssessment, EffectRecord, EffectReversibility,
  EffectStatus, EvidenceRef, RealizationDisposition,
}

abbrev proof : EvidenceRef
proof = record {
  evidence_id = 1;
  source = "hris";
  owner = "hr";
  observed_at = 90;
  version = none;
  digest = none;
  metadata = [];
}

abbrev hire : AdministrativeObligation
hire = record {
  obligation_id = 100;
  case_id = 7;
  authority_epoch = 2;
  governance_basis_id = 70;
  kind = "employment";
  subject_ref = "emp-1";
  target_system = "hris";
  required_operation = "employee.create";
  expected_postcondition = [];
  authority_class = AuthorityClass.employment;
  required = true;
  fulfillment_kind = ObligationFulfillmentKind.external_effect_verified;
}

abbrev handover : AdministrativeObligation
handover = record hire {
  obligation_id = 101;
  kind = "handover";
  fulfillment_kind = ObligationFulfillmentKind.domain_state_verified;
}

abbrev created : EffectRecord
created = record {
  effect_id = 110;
  case_id = 7;
  case_version = 5;
  authority_epoch = 2;
  authorization_id = 60;
  obligation_id = some 100;
  governance_basis_id = some 70;
  target_system = "hris";
  operation = "employee.create";
  subject_ref = "emp-1";
  reversibility = EffectReversibility.correctable;
  authority_class = AuthorityClass.employment;
  status = EffectStatus.succeeded;
  provider_ref = none;
  created_at = 60;
  updated_at = 60;
}

abbrev seen : ConfirmedOutcome
seen = record {
  outcome_id = 120;
  case_id = 7;
  case_version = 6;
  authority_epoch = 2;
  effect_id = 110;
  realization_assessment_id = 130;
  outcome_kind = "hris.employee.create.verified";
  evidence = proof ∷ [];
  confirmed_at = 91;
}

abbrev realized : EffectRealizationAssessment
realized = record {
  assessment_id = 130;
  effect_id = 110;
  disposition = RealizationDisposition.verified;
  evidence = proof ∷ [];
  assessed_at = 90;
}

abbrev handed_over : ObligationDomainStateFulfillment
handed_over = record {
  fulfillment_id = 140;
  obligation_id = 101;
  case_id = 7;
  authority_epoch = 2;
  governance_basis_id = 70;
  fulfillment_kind = ObligationFulfillmentKind.domain_state_verified;
  verified_by = "transfer";
  reason = "all duties have a successor";
  observed_state_digest = "d";
  evidence_ref = none;
  observed_at = 92;
}

abbrev collected : Evidence
collected = record {
  obligation_set = record {
    requirement_id = 150;
    case_id = 7;
    authority_epoch = 2;
    governance_basis_id = 70;
    obligations = hire ∷ handover ∷ [];
  };
  effects = created ∷ [];
  outcomes = seen ∷ [];
  realizations = realized ∷ [];
  links = record { effect_id = 110; obligation_id = 100; governance_basis_id = 70 } ∷ [];
  fulfillments = handed_over ∷ [];
}

abbrev written : Uuid → Text
written id = "requirement"

completed : (assess_obligations written collected).satisfied ≡ true
unfolding assess_obligations required_obligations effect_by_id realization_by_id link_by_obligation
    fulfillment_by_obligation outcomes_of check_outcomes check_obligation check_all blocking_reasons
completed = refl

-- An outcome whose realization is of another effect does not count.
not_completed :
    (assess_obligations written
      (record collected { realizations = record realized { effect_id = 111 } ∷ [] })).satisfied
    ≡ false
unfolding assess_obligations required_obligations effect_by_id realization_by_id link_by_obligation
    fulfillment_by_obligation outcomes_of check_outcomes check_obligation check_all blocking_reasons
not_completed = refl

abbrev other_epoch : Evidence
other_epoch = record collected { fulfillments = record handed_over { authority_epoch = 1 } ∷ [] }

abbrev optional : Evidence
optional = record collected {
  obligation_set = record collected.obligation_set {
    obligations = hire ∷ record handover { required = false } ∷ [];
  };
  fulfillments = [];
}

-- A fulfillment of another epoch does not count, and an obligation that is not required asks for
-- none.
stale_fulfillment :
    ((assess_obligations written other_epoch).satisfied ≡ false)
    × ((assess_obligations written optional).satisfied ≡ true)
unfolding assess_obligations required_obligations effect_by_id realization_by_id link_by_obligation
    fulfillment_by_obligation outcomes_of check_outcomes check_obligation check_all blocking_reasons
stale_fulfillment = (refl, refl)

assess_obligations_lem_example : ((assess_obligations written collected).satisfied ≡ true) ↔ (
    (id : Uuid) (o : AdministrativeObligation)
    → InForce collected id o
    → IsDischarged collected (id, o))
assess_obligations_lem_example = assess_obligations_lem collected written
