-- ===== src/Persistence/Cases.antt =====
-- `SqlStore` of persistence.py on cases, and `persist_fact_snapshot` of fact_history.py. `same` is
-- pydantic's equality of two snapshots; the time and the texts of UUIDs are arguments.
use administrative_orchestra.Base.{
  Bool, Dict, List, Option, Outcome, Text, Timestamp, Uuid, [], find, if◌then◌else◌, insert,
  list_eq, map, nat_eq, none, not, ok, option_eq, or_raise, raise_if, some, string_eq, ℕ, ◌==◌,
  ◌>>=◌, ◌>>◌, ◌||◌, ◌∷◌,
}
use administrative_orchestra.Domain.{
  AdministrativeCase, CaseError, FactSnapshot, Value, pos, validate_case,
}
use administrative_orchestra.Persistence.Records.{
  AuditEvent, CaseStore, FactSnapshotHistoryRow, PersistenceError, case_not_found, snapshot_reused,
  status_text, version_conflict,
}

abbrev pub find_case : Uuid → List AdministrativeCase → Option AdministrativeCase
find_case case_id = find (λ c. c.case_id == case_id)

-- `get_case`, with the validation of `_case_from_row`
unfoldable pub get_case : Uuid → CaseStore → Outcome CaseError (Option AdministrativeCase)
get_case case_id store = elim (find_case case_id store.cases) [
  | none ↦ ok none
  | some c ↦ do restored ← validate_case c; ok (some restored)
]

-- `_copy_case_into_row`, for the row with the id: the id and the time of creation stay.
abbrev pub copied : AdministrativeCase → AdministrativeCase → AdministrativeCase
copied c row = record c { case_id = row.case_id; created_at = row.created_at }

unfoldable pub copy_case_into_row :
    Uuid → AdministrativeCase → List AdministrativeCase → List AdministrativeCase
copy_case_into_row case_id c = map (λ row. if row.case_id == case_id then copied c row else row)

-- `_append_audit`
abbrev pub append_audit :
    Timestamp → Uuid → Text → Dict Text Value → List AuditEvent → List AuditEvent
append_audit now case_id event_type payload audit =
    record { case_id = case_id; event_type = event_type; payload = payload; occurred_at = now }
    ∷ audit

-- `{**d, **e}`
abbrev pub merge : Dict Text Value → Dict Text Value → Dict Text Value
merge d [] = d
merge d ((k, v) ∷ e) = merge (insert k v d) e

-- `update_case`
unfoldable pub update_case :
    Timestamp
    → AdministrativeCase
    → ℕ
    → Text
    → Dict Text Value
    → CaseStore
    → Outcome PersistenceError CaseStore
unfolding copy_case_into_row
update_case now c expected_previous_version event_type payload store = do
  row ← or_raise (find_case c.case_id store.cases) case_not_found
  raise_if (not (row.version == expected_previous_version)) version_conflict
  ok (record store {
    cases = copy_case_into_row c.case_id c store.cases;
    audit =
        append_audit now c.case_id event_type
          (merge
            (("case_version", Value.number (pos c.version))
              ∷ ("authority_epoch", Value.number (pos c.authority_epoch))
              ∷ ("status", Value.text (status_text c.status))
              ∷ [])
            payload)
          store.audit;
  })

module _ (same : FactSnapshot → FactSnapshot → Bool) where
  abbrev persist_new :
      Timestamp
      → AdministrativeCase
      → FactSnapshot
      → List FactSnapshotHistoryRow
      → Option FactSnapshotHistoryRow
      → Outcome PersistenceError (List FactSnapshotHistoryRow)
  persist_new now c snapshot rows (some existing) = do
    raise_if (not (same existing.snapshot snapshot) || not (existing.case_id == c.case_id))
        snapshot_reused
    ok rows
  persist_new now c snapshot rows none = ok (
      record {
        snapshot = snapshot;
        case_id = c.case_id;
        case_version = c.version;
        authority_epoch = c.authority_epoch;
        recorded_at = now;
      }
      ∷ rows)

  -- `persist_fact_snapshot`
  unfoldable pub persist_fact_snapshot :
      Timestamp
      → AdministrativeCase
      → List FactSnapshotHistoryRow
      → Outcome PersistenceError (List FactSnapshotHistoryRow)
  persist_fact_snapshot now c rows = elim c.fact_snapshot [
    | none ↦ ok rows
    | some snapshot ↦
        persist_new now c snapshot rows
          (find (λ r. r.snapshot.snapshot_id == snapshot.snapshot_id) rows)
  ]
