-- ===== src/Tests/Promises.antt =====
-- The lifecycle of a concrete commitment.
use administrative_orchestra.Authority.{get_principal}
use administrative_orchestra.Base.{
  Dict, Text, Uuid, [], err, false, none, ok, refl, true, ℕ, ◌∷◌, ◌≡◌,
}
use administrative_orchestra.Commitments.{
  CommitmentFulfillmentKind, CommitmentRecord, CommitmentState, CommitmentStore, Ended,
  attest_fulfillment, attestable, is_fulfilled, put_attestation, update_commitment,
}
use administrative_orchestra.Commitments.Fulfillment.{Attested, attest_fulfillment_lem}
use administrative_orchestra.Domain.{CaseStatus, Value, validate_case}
use administrative_orchestra.Persistence.{copy_case_into_row, get_case, update_case}
use administrative_orchestra.Tests.Samples.{directory, opened}

abbrev digest : Text → Uuid
digest name = 500

abbrev hash : Text → Text
hash t = t

abbrev shown : Uuid → Text
shown id = "id"

abbrev numeral : ℕ → Text
numeral n = "n"

abbrev promise : CommitmentRecord
promise = record {
  commitment_id = 60;
  candidate_ref = 61;
  case_id = 7;
  authority_epoch = 1;
  committer_principal_id = "alice";
  committer_external_subject = "ou-1";
  commitment_action = "send the report";
  due_at = 100;
  due_time_basis = "the message";
  scope_ref = none;
  beneficiary_principal_id = none;
  fulfillment_kind = CommitmentFulfillmentKind.authorized_attestation;
  state = CommitmentState.active;
  version = 1;
  responsibility_ref = none;
  responsibility_version = none;
  responsibility_admission_ref = none;
  responsibility_assessment_ref = none;
  responsibility_proposal_ref = none;
  responsibility_discharge_assessment_ref = none;
  responsibility_discharge_decision_ref = none;
  responsibility_transition_ref = none;
  created_at = 30;
  updated_at = 30;
  was_overdue = false;
}

abbrev promised : CommitmentStore
promised = record {
  directory = directory;
  cases = record {
    cases = opened ∷ [];
    evaluations = [];
    snapshots = [];
    audit = [];
    outbox = record { rows = []; audits = [] };
  };
  commitments = promise ∷ [];
  attestations = [];
  communications = [];
}

promise_program : Unit {0}
unfolding attest_fulfillment attestable get_case get_principal validate_case put_attestation
    update_commitment update_case copy_case_into_row
promise_program = tt

abbrev reason : Dict Text Value
reason = ("note", Value.text "sent") ∷ []

abbrev attested : Ended
attested = attest_fulfillment digest hash shown numeral 90 91 7 "alice" reason promised

abbrev result_of : Ended → CommitmentRecord
result_of (store, ok m) = m
result_of (store, err e) = promise

attested_once : ◌≡◌ {A = Ended} attested (attested.0, ok (result_of attested))
unfolding promise_program
attested_once = refl

attest_fulfillment_lem_example :
    Attested digest hash shown numeral 91 7 "alice" reason promised attested.0 (result_of attested)
attest_fulfillment_lem_example =
    attest_fulfillment_lem digest hash shown numeral 90 91 7 "alice" reason promised attested.0
      (result_of attested) attested_once

-- As cancel_commitment leaves it: the case and the commitment cancelled, in the next epoch.
abbrev cancelled : CommitmentStore
cancelled = record promised {
  cases = record promised.cases {
    cases = record opened { status = CaseStatus.cancelled; version = 2; authority_epoch = 2 } ∷ [];
  };
  commitments =
      record promise { state = CommitmentState.cancelled; authority_epoch = 2; version = 2 } ∷ [];
}

-- A cancelled commitment can be attested, and then counts as fulfilled.
cancelled_fulfilled :
    is_fulfilled
      (result_of
        (attest_fulfillment digest hash shown numeral 90 91 7 "alice" reason cancelled)).state
    ≡ true
unfolding promise_program
cancelled_fulfilled = refl
