-- ===== src/Commitments/Repository.antt =====
-- `CommitmentRepository` of commitment_repository.py on the tables of commitments, attestations and
-- communications.
use administrative_orchestra.Authority.{AuthorityError, Directory}
use administrative_orchestra.AuthorityLifecycle.{payload_beq}
use administrative_orchestra.Base.{
  Bool, List, Option, Outcome, Uuid, err, find, if◌then◌else◌, keep, leb, list_eq, ltb, map, nat_eq,
  none, not, ok, option_eq, or_raise, raise_if, some, sort_by, string_eq, ◌&&◌, ◌+◌, ◌==◌, ◌>>=◌,
  ◌>>◌, ◌||◌, ◌∷◌,
}
use administrative_orchestra.Commitments.Models.{
  CommitmentFulfillmentAttestation, CommitmentRecord, CommunicationEffectRecord,
}
use administrative_orchestra.Domain.{CaseError}
use administrative_orchestra.Persistence.{CaseStore, PersistenceError}

-- The tables that the services of commitments read and write.
pub record CommitmentStore : Type 0 where
  pub directory : Directory
  pub cases : CaseStore
  pub commitments : List CommitmentRecord
  pub attestations : List CommitmentFulfillmentAttestation
  pub communications : List CommunicationEffectRecord

pub data CommitmentError : Type 0 where
  commitment_missing commitment_version_changed : CommitmentError
  attestation_id_reused attestation_differs communication_missing : CommitmentError
  commitment_case_missing commitment_epoch_changed : CommitmentError
  not_the_committer attester_inactive attestation_without_basis : CommitmentError
  reviewer_without_role cancellation_without_basis commitment_terminal : CommitmentError
  case_invalid : CaseError → CommitmentError
  case_not_written : PersistenceError → CommitmentError
  authority_unreadable : AuthorityError → CommitmentError

-- `get_commitment`
abbrev pub get_commitment : Uuid → List CommitmentRecord → Option CommitmentRecord
get_commitment case_id = find (λ m. m.case_id == case_id)

-- `setattr` of the values of a commitment on its row: the three keys stay.
abbrev pub written : CommitmentRecord → CommitmentRecord → CommitmentRecord
written m row = record m {
  commitment_id = row.commitment_id;
  candidate_ref = row.candidate_ref;
  case_id = row.case_id;
}

-- The commitment that `update_commitment` stores over a row.
abbrev pub next_version : CommitmentRecord → CommitmentRecord → CommitmentRecord
next_version m row = written (record m { version = m.version + 1 }) row

-- `update_commitment`
unfoldable pub update_commitment :
    CommitmentRecord
    → CommitmentStore
    → Outcome CommitmentError (CommitmentRecord × CommitmentStore)
update_commitment m store = do
  row ←
      or_raise (find (λ r. r.commitment_id == m.commitment_id) store.commitments) commitment_missing
  raise_if (not (row.version == m.version)) commitment_version_changed
  ok (
    next_version m row,
    record store {
      commitments =
          map (λ r. if r.commitment_id == m.commitment_id then next_version m r else r)
            store.commitments;
    },
  )

-- `restored == attestation`
abbrev pub attestation_beq :
    CommitmentFulfillmentAttestation → CommitmentFulfillmentAttestation → Bool
attestation_beq a b =
    (((a.attestation_id == b.attestation_id) && (a.case_id == b.case_id))
      && ((a.authority_epoch == b.authority_epoch)
          && (a.commitment_version == b.commitment_version)))
    && (((a.principal_id == b.principal_id) && (a.disposition == b.disposition))
        && (payload_beq a.basis b.basis && (a.attested_at == b.attested_at)))

abbrev pub restored_or :
    CommitmentFulfillmentAttestation
    → CommitmentError
    → CommitmentStore
    → Outcome CommitmentError CommitmentStore
    → Option CommitmentFulfillmentAttestation
    → Outcome CommitmentError CommitmentStore
restored_or a conflict store otherwise none = otherwise
restored_or a conflict store otherwise (some restored) =
    if attestation_beq restored a then ok store else err conflict

-- `put_attestation`
unfoldable pub put_attestation :
    CommitmentFulfillmentAttestation → CommitmentStore → Outcome CommitmentError CommitmentStore
put_attestation a store =
    restored_or a attestation_id_reused store
      (restored_or a attestation_differs store
        (ok (record store { attestations = a ∷ store.attestations }))
        (find (λ r. (r.case_id == a.case_id) && (r.commitment_version == a.commitment_version))
          store.attestations))
      (find (λ r. r.attestation_id == a.attestation_id) store.attestations)

-- `list_communications`, without an epoch
unfoldable pub list_communications :
    Uuid → List CommunicationEffectRecord → List CommunicationEffectRecord
list_communications case_id rows =
    sort_by
      (λ m n.
        ltb m.created_at n.created_at
        || ((m.created_at == n.created_at)
            && leb m.communication_event_id n.communication_event_id))
      (keep (λ m. m.case_id == case_id) rows)

-- `update_communication`
unfoldable pub update_communication :
    CommunicationEffectRecord → CommitmentStore → Outcome CommitmentError CommitmentStore
update_communication m store = do
  row ←
      or_raise
        (find (λ r. r.communication_event_id == m.communication_event_id) store.communications)
        communication_missing
  ok (record store {
    communications =
        map (λ r. if r.communication_event_id == m.communication_event_id then m else r)
          store.communications;
  })
