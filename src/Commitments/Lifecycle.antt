-- ===== src/Commitments/Lifecycle.antt =====
-- `attest_fulfillment` of commitment_lifecycle.py, and what it shares with commitment_cancellation.py. Each call of a repository is a transaction of its own: what one has
-- written stays when a later one raises. `uuid5` gives an id under `M9_NAMESPACE`, `sha256` the digest
-- of a text, `str` and `show` the texts of a UUID and of a number; the times are arguments.
use administrative_orchestra.Authority.{get_principal}
use administrative_orchestra.Base.{
  Bool, Dict, Outcome, Text, Timestamp, Uuid, [], err, if◌then◌else◌, is_empty, join, ltb, map_err,
  nat_eq, not, ok, option_eq, or_raise, raise_if, string_eq, ℕ, ◌+◌, ◌==◌, ◌>>=◌, ◌>>◌, ◌||◌, ◌∷◌,
}
use administrative_orchestra.Commitments.Models.{
  CommitmentFulfillmentAttestation, CommitmentRecord, CommitmentState, is_fulfilled,
}
use administrative_orchestra.Commitments.Repository.{
  CommitmentError, CommitmentStore, attestation_without_basis, attester_inactive,
  commitment_case_missing, commitment_epoch_changed, get_commitment, not_the_committer,
  put_attestation, update_commitment,
}
use administrative_orchestra.Domain.{AdministrativeCase, CaseStatus, Value, status_eq}
use administrative_orchestra.Persistence.{get_case, update_case}

-- A call ends with a value or an exception, and leaves the tables.
abbrev pub Ended : Type 0
Ended = CommitmentStore × Outcome CommitmentError CommitmentRecord

-- The commitment and its case, with the guards that both calls share.
abbrev pub located :
    Uuid → CommitmentStore → Outcome CommitmentError (CommitmentRecord × AdministrativeCase)
located case_id store = do
  found ← map_err CommitmentError.case_invalid (get_case case_id store.cases)
  m ← or_raise (get_commitment case_id store.commitments) commitment_case_missing
  c ← or_raise found commitment_case_missing
  raise_if (not (m.authority_epoch == c.authority_epoch)) commitment_epoch_changed
  ok (m, c)

abbrev pub case_closed : CaseStatus → Bool
case_closed status = (status == CaseStatus.completed) || (status == CaseStatus.cancelled)

-- The guards of `attest_fulfillment`.
unfoldable pub attestable :
    Uuid
    → Text
    → Dict Text Value
    → CommitmentStore
    → Outcome CommitmentError (CommitmentRecord × AdministrativeCase)
unfolding get_case get_principal
attestable case_id principal basis store = do
  pair ← located case_id store
  raise_if (not (principal == pair.0.committer_principal_id)) not_the_committer
  p ← or_raise (get_principal principal store.directory) attester_inactive
  raise_if (is_empty basis) attestation_without_basis
  ok pair

module _ (uuid5 : Text → Uuid) (sha256 : Text → Text) (str : Uuid → Text) (show : ℕ → Text) where
  -- The write of the case, after the one of the commitment.
  abbrev pub close_case :
      Timestamp
      → CaseStatus
      → ℕ
      → Text
      → Dict Text Value
      → AdministrativeCase
      → CommitmentStore
      → Outcome CommitmentError CommitmentStore
  close_case at status epoch event_type payload c store = do
    cases ← map_err CommitmentError.case_not_written (
        update_case at
          (record c {
            status = status;
            version = c.version + 1;
            authority_epoch = epoch;
            updated_at = at;
          })
          c.version event_type payload store.cases)
    ok (record store { cases = cases })

  -- Both calls end with a last write, after which they return the commitment.
  abbrev pub returning :
      CommitmentRecord → CommitmentStore → Outcome CommitmentError CommitmentStore → Ended
  returning m store (ok store') = (store', ok m)
  returning m store (err e) = (store, err e)

  abbrev pub attestation_of :
      Timestamp
      → Uuid
      → Text
      → Dict Text Value
      → CommitmentRecord
      → CommitmentFulfillmentAttestation
  attestation_of now case_id principal basis m = record {
    attestation_id = uuid5 (join ("attestation:" ∷ str case_id ∷ ":" ∷ show m.version ∷ []));
    case_id = case_id;
    authority_epoch = m.authority_epoch;
    commitment_version = m.version;
    principal_id = principal;
    disposition = "fulfilled";
    basis = basis;
    attested_at = now;
  }

  -- The commitment that `attest_fulfillment` writes.
  abbrev pub fulfilled_at : Timestamp → CommitmentRecord → CommitmentRecord
  fulfilled_at at m = record m {
    state = CommitmentState.fulfilled;
    was_overdue = m.was_overdue || ltb m.due_at at;
    updated_at = at;
  }

  abbrev pub after_update :
      Timestamp
      → Uuid
      → AdministrativeCase
      → CommitmentStore
      → Outcome CommitmentError (CommitmentRecord × CommitmentStore)
      → Ended
  after_update at attestation_id c store (err e) = (store, err e)
  after_update at attestation_id c store (ok (updated, store')) =
      if case_closed c.status
      then (store', ok updated)
      else returning updated store' (
          close_case at CaseStatus.completed c.authority_epoch "commitment.fulfilled"
            (("attestation_id", Value.text (str attestation_id)) ∷ []) c store')

  abbrev pub after_attestation :
      Timestamp
      → Uuid
      → CommitmentRecord
      → AdministrativeCase
      → CommitmentStore
      → Outcome CommitmentError CommitmentStore
      → Ended
  after_attestation at attestation_id m c store (err e) = (store, err e)
  after_attestation at attestation_id m c store (ok store') =
      after_update at attestation_id c store' (update_commitment (fulfilled_at at m) store')

  abbrev pub attest_located :
      Timestamp
      → Timestamp
      → Uuid
      → Text
      → Dict Text Value
      → CommitmentStore
      → Outcome CommitmentError (CommitmentRecord × AdministrativeCase)
      → Ended
  attest_located now at case_id principal basis store (err e) = (store, err e)
  attest_located now at case_id principal basis store (ok (m, c)) =
      if is_fulfilled m.state
      then (store, ok m)
      else let a = attestation_of now case_id principal basis m in
        after_attestation at a.attestation_id m c store (put_attestation a store)

  -- `attest_fulfillment`: `now` is the time of `attested_at`.
  unfoldable pub attest_fulfillment :
      Timestamp → Timestamp → Uuid → Text → Dict Text Value → CommitmentStore → Ended
  attest_fulfillment now at case_id principal basis store =
      attest_located now at case_id principal basis store (attestable case_id principal basis store)
