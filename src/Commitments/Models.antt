-- ===== src/Commitments/Models.antt =====
-- The records of commitment_models.py that the lifecycle of a commitment reads and writes.
use administrative_orchestra.Base.{Bool, Dict, Option, Text, Timestamp, Uuid, false, true, ℕ}
use administrative_orchestra.Domain.{Value}

pub data CommitmentState : Type 0 where
  active overdue fulfilled cancelled reopen_required : CommitmentState

abbrev pub is_fulfilled : CommitmentState → Bool
is_fulfilled CommitmentState.fulfilled = true
is_fulfilled _ = false

abbrev pub is_cancelled : CommitmentState → Bool
is_cancelled CommitmentState.cancelled = true
is_cancelled _ = false

pub data CommitmentFulfillmentKind : Type 0 where
  evidence_verified authorized_attestation : CommitmentFulfillmentKind

pub data CommunicationDeliveryState : Type 0 where
  prepared transport_accepted delivery_confirmed : CommunicationDeliveryState
  retrying permanent_failed outcome_unknown : CommunicationDeliveryState

-- `delivery_state in {PREPARED, RETRYING}`
abbrev pub is_undelivered : CommunicationDeliveryState → Bool
is_undelivered CommunicationDeliveryState.prepared = true
is_undelivered CommunicationDeliveryState.retrying = true
is_undelivered _ = false

pub record CommitmentRecord : Type 0 where
  pub commitment_id : Uuid
  pub candidate_ref : Uuid
  pub case_id : Uuid
  pub authority_epoch : ℕ
  pub committer_principal_id : Text
  pub committer_external_subject : Text
  pub commitment_action : Text
  pub due_at : Timestamp
  pub due_time_basis : Text
  pub scope_ref : Option Text
  pub beneficiary_principal_id : Option Text
  pub fulfillment_kind : CommitmentFulfillmentKind
  pub state : CommitmentState
  pub version : ℕ
  pub responsibility_ref : Option Text
  pub responsibility_version : Option ℕ
  pub responsibility_admission_ref : Option Text
  pub responsibility_assessment_ref : Option Text
  pub responsibility_proposal_ref : Option Text
  pub responsibility_discharge_assessment_ref : Option Text
  pub responsibility_discharge_decision_ref : Option Text
  pub responsibility_transition_ref : Option Text
  pub created_at : Timestamp
  pub updated_at : Timestamp
  pub was_overdue : Bool

pub record CommitmentFulfillmentAttestation : Type 0 where
  pub attestation_id : Uuid
  pub case_id : Uuid
  pub authority_epoch : ℕ
  pub commitment_version : ℕ
  pub principal_id : Text
  pub disposition : Text
  pub basis : Dict Text Value
  pub attested_at : Timestamp

-- A message about a commitment; it is never known to be read.
pub record CommunicationEffectRecord : Type 0 where
  pub communication_event_id : Uuid
  pub case_id : Uuid
  pub authority_epoch : ℕ
  pub draft_id : Uuid
  pub effect_id : Uuid
  pub delivery_state : CommunicationDeliveryState
  pub provider_message_ref : Option Text
  pub attempts : ℕ
  pub last_error_code : Option Text
  pub created_at : Timestamp
  pub updated_at : Timestamp
