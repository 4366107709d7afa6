-- ===== src/Completion/Obligations.antt =====
-- The records of obligations.py that completion reads.
use administrative_orchestra.Base.{Bool, Dict, List, Option, Text, Timestamp, Uuid, false, true, ℕ}
use administrative_orchestra.Domain.{AuthorityClass, Value}

pub data ObligationFulfillmentKind : Type 0 where
  external_effect_verified domain_state_verified : ObligationFulfillmentKind

abbrev pub is_domain_state : ObligationFulfillmentKind → Bool
is_domain_state ObligationFulfillmentKind.external_effect_verified = false
is_domain_state ObligationFulfillmentKind.domain_state_verified = true

pub record AdministrativeObligation : Type 0 where
  pub obligation_id : Uuid
  pub case_id : Uuid
  pub authority_epoch : ℕ
  pub governance_basis_id : Uuid
  pub kind : Text
  pub subject_ref : Text
  pub target_system : Text
  pub required_operation : Text
  pub expected_postcondition : Dict Text Value
  pub authority_class : AuthorityClass
  pub required : Bool
  pub fulfillment_kind : ObligationFulfillmentKind

pub record AdministrativeObligationSet : Type 0 where
  pub requirement_id : Uuid
  pub case_id : Uuid
  pub authority_epoch : ℕ
  pub governance_basis_id : Uuid
  pub obligations : List AdministrativeObligation

pub record EffectObligationLink : Type 0 where
  pub effect_id : Uuid
  pub obligation_id : Uuid
  pub governance_basis_id : Uuid

pub record ObligationDomainStateFulfillment : Type 0 where
  pub fulfillment_id : Uuid
  pub obligation_id : Uuid
  pub case_id : Uuid
  pub authority_epoch : ℕ
  pub governance_basis_id : Uuid
  pub fulfillment_kind : ObligationFulfillmentKind
  pub verified_by : Text
  pub reason : Text
  pub observed_state_digest : Text
  pub evidence_ref : Option Text
  pub observed_at : Timestamp
