-- ===== src/Persistence/Work.antt =====
-- `AdministrativeUnitOfWork` of unit_of_work.py: `_require_version`, `apply_policy_transition` and
-- `replace_facts_and_apply_policy`.
use administrative_orchestra.Base.{
  Bool, Dict, List, Option, Outcome, Text, Timestamp, Uuid, [], insert, leb, list_eq, nat_eq, none,
  not, ok, option_eq, or_raise, raise_if, some, string_eq, ◌+◌, ◌==◌, ◌>>=◌, ◌>>◌, ◌∷◌,
}
use administrative_orchestra.Domain.{AdministrativeCase, FactSnapshot, Value, policy_eq, pos}
use administrative_orchestra.Messaging.{Outbox, emit_outbox}
use administrative_orchestra.Persistence.Cases.{
  append_audit, copy_case_into_row, find_case, persist_fact_snapshot,
}
use administrative_orchestra.Persistence.Records.{
  CaseStore, FactSnapshotHistoryRow, PersistenceError, case_not_found, disposition_text,
  epoch_conflict, epoch_not_advanced, fact_authority_text, other_case, policy_differs,
  snapshot_not_new, snapshot_required, status_text, version_conflict, version_not_advanced,
}
use administrative_orchestra.Policy.{PolicyEvaluation}

-- `_require_version`
unfoldable pub require_version :
    Option AdministrativeCase → AdministrativeCase → Outcome PersistenceError (Unit {0})
require_version row expected = do
  stored ← or_raise row case_not_found
  raise_if (not (stored.version == expected.version)) version_conflict
  raise_if (not (stored.authority_epoch == expected.authority_epoch)) epoch_conflict

-- `_append_policy_evaluation`
abbrev pub append_policy_evaluation :
    Timestamp → AdministrativeCase → PolicyEvaluation → CaseStore → CaseStore
append_policy_evaluation now c evaluation store = record store {
  evaluations =
      record {
        case_id = c.case_id;
        case_version = c.version;
        authority_epoch = c.authority_epoch;
        policy_ref = evaluation.policy_ref;
        evaluation = evaluation;
        created_at = now;
      }
      ∷ store.evaluations;
  audit =
      append_audit now c.case_id "policy.evaluated"
        (("case_version", Value.number (pos c.version))
          ∷ ("authority_epoch", Value.number (pos c.authority_epoch))
          ∷ ("policy_id", Value.text evaluation.policy_ref.policy_id)
          ∷ ("policy_version", Value.text evaluation.policy_ref.version)
          ∷ ("disposition", Value.text (disposition_text evaluation.disposition))
          ∷ [])
        store.audit;
}

-- `case.snapshot_id if case.fact_snapshot else None`
abbrev pub snapshot_id_of : Option FactSnapshot → Option Uuid
snapshot_id_of none = none
snapshot_id_of (some s) = some s.snapshot_id

-- The texts of the audit row for replaced facts.
abbrev optional_text : Option Text → Value
optional_text none = Value.null
optional_text (some t) = Value.text t

module _ (str : Uuid → Text) (same : FactSnapshot → FactSnapshot → Bool) where
  -- The columns that both transactions show in "case.policy_applied".
  abbrev applied_fields : AdministrativeCase → PolicyEvaluation → Dict Text Value
  applied_fields after evaluation =
      ("case_version", Value.number (pos after.version))
      ∷ ("authority_epoch", Value.number (pos after.authority_epoch))
      ∷ ("status", Value.text (status_text after.status))
      ∷ ("policy_disposition", Value.text (disposition_text evaluation.disposition))
      ∷ []

  -- The event that wakes the workflow of the case.
  abbrev wake :
      Timestamp
      → Uuid
      → AdministrativeCase
      → Text
      → Outbox (Dict Text Value)
      → Outbox (Dict Text Value)
  wake now event_id after cause =
      emit_outbox now event_id "workflow.case_changed" (str after.case_id) (
        ("case_id", Value.text (str after.case_id))
        ∷ ("case_kind", Value.text after.case_kind)
        ∷ ("case_version", Value.number (pos after.version))
        ∷ ("authority_epoch", Value.number (pos after.authority_epoch))
        ∷ ("status", Value.text (status_text after.status))
        ∷ ("cause", Value.text cause)
        ∷ [])

  -- What `apply_policy_transition` writes.
  unfoldable pub policy_applied :
      Timestamp
      → Uuid
      → AdministrativeCase
      → AdministrativeCase
      → PolicyEvaluation
      → CaseStore
      → CaseStore
  unfolding copy_case_into_row
  policy_applied now event_id before after evaluation store =
      let evaluated = append_policy_evaluation now after evaluation store in
      record evaluated {
        cases = copy_case_into_row before.case_id after evaluated.cases;
        audit =
            append_audit now after.case_id "case.policy_applied" (applied_fields after evaluation)
              evaluated.audit;
        outbox = wake now event_id after "policy_evaluated" evaluated.outbox;
      }

  -- `apply_policy_transition`
  unfoldable pub apply_policy_transition :
      Timestamp
      → Uuid
      → AdministrativeCase
      → AdministrativeCase
      → PolicyEvaluation
      → CaseStore
      → Outcome PersistenceError CaseStore
  apply_policy_transition now event_id before after evaluation store = do
    raise_if (not (before.case_id == after.case_id)) other_case
    raise_if (leb after.version before.version) version_not_advanced
    raise_if (not (after.authority_epoch == before.authority_epoch + 1)) epoch_not_advanced
    raise_if (not (after.policy_ref == some evaluation.policy_ref)) policy_differs
    require_version (find_case before.case_id store.cases) before
    ok (policy_applied now event_id before after evaluation store)

  -- What `replace_facts_and_apply_policy` writes, with the history of snapshots after it.
  unfoldable pub facts_replaced :
      Timestamp
      → Uuid
      → AdministrativeCase
      → AdministrativeCase
      → FactSnapshot
      → PolicyEvaluation
      → List FactSnapshotHistoryRow
      → CaseStore
      → CaseStore
  unfolding copy_case_into_row
  facts_replaced now event_id before after snapshot evaluation snapshots store =
      let evaluated = append_policy_evaluation now after evaluation store in
      let replaced =
        append_audit now after.case_id "facts.replaced"
          (("case_version", Value.number (pos after.version))
            ∷ ("authority_epoch", Value.number (pos after.authority_epoch))
            ∷ ("fact_snapshot_id", Value.text (str snapshot.snapshot_id))
            ∷ (
              "previous_fact_snapshot_id",
              elim before.fact_snapshot [
                | none ↦ Value.null
                | some previous ↦ Value.text (str previous.snapshot_id)
              ],
            )
            ∷ ("fact_authority", Value.text (fact_authority_text snapshot.authority))
            ∷ ("source", Value.text snapshot.source)
            ∷ ("source_ref", optional_text snapshot.source_ref)
            ∷ ("source_version", optional_text snapshot.source_version)
            ∷ [])
          evaluated.audit in
      record evaluated {
        cases = copy_case_into_row before.case_id after evaluated.cases;
        snapshots = snapshots;
        audit =
            append_audit now after.case_id "case.policy_applied"
              (insert "cause" (Value.text "facts_replaced") (applied_fields after evaluation))
              replaced;
        outbox = wake now event_id after "facts_replaced" evaluated.outbox;
      }

  -- `replace_facts_and_apply_policy`
  unfoldable pub replace_facts_and_apply_policy :
      Timestamp
      → Uuid
      → AdministrativeCase
      → AdministrativeCase
      → PolicyEvaluation
      → CaseStore
      → Outcome PersistenceError CaseStore
  replace_facts_and_apply_policy now event_id before after evaluation store = do
    raise_if (not (before.case_id == after.case_id)) other_case
    snapshot ← or_raise after.fact_snapshot snapshot_required
    raise_if (snapshot_id_of before.fact_snapshot == some snapshot.snapshot_id) snapshot_not_new
    raise_if (leb after.version before.version) version_not_advanced
    raise_if (leb after.authority_epoch before.authority_epoch) epoch_not_advanced
    raise_if (not (after.policy_ref == some evaluation.policy_ref)) policy_differs
    require_version (find_case before.case_id store.cases) before
    snapshots ← persist_fact_snapshot same now after store.snapshots
    ok (facts_replaced now event_id before after snapshot evaluation snapshots store)
