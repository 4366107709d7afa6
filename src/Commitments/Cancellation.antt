-- ===== src/Commitments/Cancellation.antt =====
-- `cancel_commitment` of commitment_cancellation.py, and `_require_reviewer` of commitment_service.py.
use administrative_orchestra.Authority.{get_principal, roles_for}
use administrative_orchestra.Base.{
  List, Outcome, Text, Timestamp, Uuid, [], contains, err, if◌then◌else◌, is_blank, list_eq,
  map_err, nat_eq, not, ok, option_eq, or_raise, raise_if, some, string_eq, strip, ℕ, ◌+◌, ◌>>=◌,
  ◌>>◌, ◌||◌, ◌∷◌,
}
use administrative_orchestra.Commitments.Lifecycle.{Ended, case_closed, close_case, located}
use administrative_orchestra.Commitments.Models.{
  CommitmentRecord, CommitmentState, CommunicationDeliveryState, CommunicationEffectRecord,
  is_cancelled, is_fulfilled, is_undelivered,
}
use administrative_orchestra.Commitments.Repository.{
  CommitmentError, CommitmentStore, authority_unreadable, cancellation_without_basis,
  commitment_terminal, list_communications, reviewer_without_role, update_commitment,
  update_communication,
}
use administrative_orchestra.Domain.{AdministrativeCase, CaseStatus, Value, is_some, status_eq}
use administrative_orchestra.Persistence.{get_case}

module _ (uuid5 : Text → Uuid) (sha256 : Text → Text) (str : Uuid → Text) (show : ℕ → Text) where
  -- `_require_reviewer`
  unfoldable pub require_reviewer :
      Timestamp → Text → CommitmentStore → Outcome CommitmentError (Unit {0})
  unfolding get_principal roles_for
  require_reviewer now principal store = do
    p ← or_raise (get_principal principal store.directory) reviewer_without_role
    roles ← map_err authority_unreadable (roles_for principal "*" now store.directory)
    raise_if
        (not (contains roles "administrative_operator" || contains roles "administrative_admin"))
        reviewer_without_role

  -- The guards of `cancel_commitment` before a cancelled commitment is returned.
  unfoldable pub cancellable :
      Timestamp
      → Uuid
      → Text
      → Text
      → CommitmentStore
      → Outcome CommitmentError (CommitmentRecord × AdministrativeCase)
  unfolding require_reviewer get_case
  cancellable now case_id reviewer basis store = do
    require_reviewer now reviewer store
    raise_if (is_blank (strip basis)) cancellation_without_basis
    located case_id store

  -- The loop over the communications of the case, and the return of the commitment.
  unfoldable pub close_communications :
      Timestamp → CommitmentRecord → List CommunicationEffectRecord → CommitmentStore → Ended
  unfolding update_communication
  close_communications now cancelled [] store = (store, ok cancelled)
  close_communications now cancelled (m ∷ ms) store =
      elim (if is_undelivered m.delivery_state
        then update_communication
            (record m {
              delivery_state = CommunicationDeliveryState.permanent_failed;
              last_error_code = some "COMMITMENT_CANCELLED";
              updated_at = now;
            })
            store
        else ok store) [
          | err e ↦ (store, err e)
          | ok store' ↦ close_communications now cancelled ms store'
        ]

  -- The commitment that `cancel_commitment` writes.
  abbrev pub cancelled_at : Timestamp → ℕ → CommitmentRecord → CommitmentRecord
  cancelled_at now authority_epoch m = record m {
    state = CommitmentState.cancelled;
    authority_epoch = authority_epoch;
    updated_at = now;
  }

  abbrev after_cancel :
      Timestamp
      → Uuid
      → CommitmentStore
      → Outcome CommitmentError (CommitmentRecord × CommitmentStore)
      → Ended
  after_cancel now case_id store (err e) = (store, err e)
  after_cancel now case_id store (ok (cancelled, store')) =
      close_communications now cancelled (list_communications case_id store'.communications) store'

  abbrev after_case :
      Timestamp
      → Uuid
      → CommitmentRecord
      → AdministrativeCase
      → CommitmentStore
      → Outcome CommitmentError CommitmentStore
      → Ended
  after_case now case_id m c store (err e) = (store, err e)
  after_case now case_id m c store (ok store') =
      after_cancel now case_id store'
        (update_commitment (cancelled_at now (c.authority_epoch + 1) m) store')

  abbrev cancel_located :
      Timestamp
      → Uuid
      → Text
      → Text
      → CommitmentStore
      → Outcome CommitmentError (CommitmentRecord × AdministrativeCase)
      → Ended
  cancel_located now case_id reviewer basis store (err e) = (store, err e)
  cancel_located now case_id reviewer basis store (ok (m, c)) =
      if is_cancelled m.state
      then (store, ok m)
      else (if is_fulfilled m.state || case_closed c.status
          then (store, err commitment_terminal)
          else after_case now case_id m c store (
              close_case uuid5 sha256 str show now CaseStatus.cancelled (c.authority_epoch + 1)
                "commitment.cancelled"
                (("reviewer_principal_id", Value.text reviewer)
                  ∷ ("basis_digest", Value.text (sha256 (strip basis)))
                  ∷ (
                    "responsibility_reassessment_required",
                    Value.flag (is_some m.responsibility_ref),
                  )
                  ∷ [])
                c store))

  -- `cancel_commitment`
  unfoldable pub cancel_commitment : Timestamp → Uuid → Text → Text → CommitmentStore → Ended
  cancel_commitment now case_id reviewer basis store =
      cancel_located now case_id reviewer basis store (cancellable now case_id reviewer basis store)
