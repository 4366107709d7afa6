-- ===== src/Transactions/Store.antt =====
-- TransactionRepository. `utcnow()` and `uuid4()` are arguments, and `str` gives the text of a UUID.
-- Transactions run one after another, so the insertion of a row whose key was looked up before does
-- not fail.
use administrative_orchestra.Base.{
  Bool, List, Option, Outcome, Text, Timestamp, Uuid, [], any, err, find, if◌then◌else◌, keep, leb,
  length, list_eq, ltb, nat_eq, none, not, ok, option_eq, or_raise, raise_if, some, sort_by,
  string_eq, ℕ, ◌&&◌, ◌==◌, ◌>>=◌, ◌>>◌, ◌||◌, ◌∷◌,
}
use administrative_orchestra.Domain.{Value, pos}
use administrative_orchestra.Messaging.{emit_outbox}
use administrative_orchestra.Transactions.Records.{
  AdministrativeCaseEvidenceLink, TransactionQualificationAssessment, TransactionRecordConflict,
  TransactionStore, assessment_identity_reused, link_identity_reused, link_semantics_exist,
  multiple_current_assessments, must_supersede_current, result_eq, result_text,
  target_already_superseded, target_incompatible, target_missing,
}

-- `_link_semantics(a) == _link_semantics(b)`: all but the id
abbrev pub same_link : AdministrativeCaseEvidenceLink → AdministrativeCaseEvidenceLink → Bool
same_link a b =
    ((a.case_id == b.case_id) && (a.authority_epoch == b.authority_epoch))
    && (((a.artifact_ref == b.artifact_ref) && (a.representation_ref == b.representation_ref))
        && (((a.declared_role == b.declared_role) && (a.source == b.source))
            && ((a.linked_at == b.linked_at) && (a.linked_by == b.linked_by))))

-- The query for a link of the same evidence.
abbrev pub links_same_evidence :
    AdministrativeCaseEvidenceLink → AdministrativeCaseEvidenceLink → Bool
links_same_evidence a b =
    ((a.case_id == b.case_id) && (a.authority_epoch == b.authority_epoch))
    && ((a.artifact_ref == b.artifact_ref)
        && ((a.representation_ref == b.representation_ref) && (a.declared_role == b.declared_role)))

-- `_assessment_semantics(a) == _assessment_semantics(b)`: all but the id
abbrev pub same_assessment :
    TransactionQualificationAssessment → TransactionQualificationAssessment → Bool
same_assessment a b =
    ((a.case_id == b.case_id) && (a.authority_epoch == b.authority_epoch))
    && (((a.assessment_kind == b.assessment_kind)
          && (a.supersedes_assessment_id == b.supersedes_assessment_id))
        && (((a.input_refs == b.input_refs) && (a.rule_ref == b.rule_ref))
            && ((a.result == b.result)
                && ((a.blocking_reasons == b.blocking_reasons) && (a.created_at == b.created_at)))))

-- Same case, authority epoch and kind.
abbrev pub same_group :
    TransactionQualificationAssessment → TransactionQualificationAssessment → Bool
same_group a b =
    ((a.case_id == b.case_id) && (a.authority_epoch == b.authority_epoch))
    && (a.assessment_kind == b.assessment_kind)

-- Some row supersedes the assessment with this id.
abbrev pub is_superseded : List TransactionQualificationAssessment → Uuid → Bool
is_superseded rows id = any (λ s. s.supersedes_assessment_id == some id) rows

abbrev pub get_assessment :
    Uuid → List TransactionQualificationAssessment → Option TransactionQualificationAssessment
get_assessment id = find (λ r. r.assessment_id == id)

-- The checks before an assessment is added.
unfoldable pub check_supersession :
    TransactionQualificationAssessment
    → Option Uuid
    → List TransactionQualificationAssessment
    → Outcome TransactionRecordConflict (Unit {0})
check_supersession a (some target) rows = do
  superseded ← or_raise (get_assessment target rows) target_missing
  raise_if (not (same_group superseded a)) target_incompatible
  raise_if (is_superseded rows target) target_already_superseded
  ok tt
check_supersession a none rows =
    let same_kind = keep (λ r. same_group r a) rows in
    raise_if (any (λ r. not (is_superseded same_kind r.assessment_id)) same_kind)
      must_supersede_current

module _ (str : Uuid → Text) where
  abbrev link_added :
      Timestamp → AdministrativeCaseEvidenceLink → TransactionStore → TransactionStore
  link_added now link store = record store {
    links = link ∷ store.links;
    audit =
        record {
          case_id = link.case_id;
          event_type = "transaction.evidence_link.appended";
          payload =
              ("link_id", Value.text (str link.link_id))
              ∷ ("authority_epoch", Value.number (pos link.authority_epoch))
              ∷ ("artifact_ref", Value.text (str link.artifact_ref))
              ∷ (
                "representation_ref",
                elim link.representation_ref [ none ↦ Value.null | some r ↦ Value.text (str r) ],
              )
              ∷ ("declared_role", Value.text link.declared_role)
              ∷ [];
          occurred_at = now;
        }
        ∷ store.audit;
  }

  abbrev link_or :
      AdministrativeCaseEvidenceLink
      → TransactionRecordConflict
      → TransactionStore
      → Outcome TransactionRecordConflict (AdministrativeCaseEvidenceLink × TransactionStore)
      → Option AdministrativeCaseEvidenceLink
      → Outcome TransactionRecordConflict (AdministrativeCaseEvidenceLink × TransactionStore)
  link_or link conflict store otherwise none = otherwise
  link_or link conflict store otherwise (some restored) =
      if same_link restored link then ok (restored, store) else err conflict

  -- `append_evidence_link`
  unfoldable pub append_evidence_link :
      Timestamp
      → AdministrativeCaseEvidenceLink
      → TransactionStore
      → Outcome TransactionRecordConflict (AdministrativeCaseEvidenceLink × TransactionStore)
  append_evidence_link now link store =
      link_or link link_identity_reused store
        (link_or link link_semantics_exist store (ok (link, link_added now link store))
          (find (λ l. links_same_evidence l link) store.links))
        (find (λ l. l.link_id == link.link_id) store.links)

  -- What the transaction writes.
  unfoldable pub assessment_added :
      Timestamp → Uuid → TransactionQualificationAssessment → TransactionStore → TransactionStore
  assessment_added now event_id a store = record store {
    assessments = a ∷ store.assessments;
    audit =
        record {
          case_id = a.case_id;
          event_type = "transaction.qualification_assessment.appended";
          payload =
              ("assessment_id", Value.text (str a.assessment_id))
              ∷ ("authority_epoch", Value.number (pos a.authority_epoch))
              ∷ ("assessment_kind", Value.text a.assessment_kind)
              ∷ ("result", Value.text (result_text a.result))
              ∷ ("rule_ref", Value.text a.rule_ref)
              ∷ [];
          occurred_at = now;
        }
        ∷ store.audit;
    outbox =
        emit_outbox now event_id "workflow.case_changed" (str a.case_id)
          (("case_id", Value.text (str a.case_id))
            ∷ ("authority_epoch", Value.number (pos a.authority_epoch))
            ∷ ("cause", Value.text "qualification_assessment")
            ∷ ("assessment_id", Value.text (str a.assessment_id))
            ∷ ("assessment_kind", Value.text a.assessment_kind)
            ∷ [])
          store.outbox;
  }

  abbrev pub assess_or_restore :
      Timestamp
      → Uuid
      → TransactionQualificationAssessment
      → TransactionStore
      → Option TransactionQualificationAssessment
      → Outcome TransactionRecordConflict (TransactionQualificationAssessment × TransactionStore)
  assess_or_restore now event_id a store (some restored) =
      if same_assessment restored a then ok (restored, store) else err assessment_identity_reused
  assess_or_restore now event_id a store none = do
    check_supersession a a.supersedes_assessment_id store.assessments
    ok (a, assessment_added now event_id a store)

  -- `append_assessment`
  unfoldable pub append_assessment :
      Timestamp
      → Uuid
      → TransactionQualificationAssessment
      → TransactionStore
      → Outcome TransactionRecordConflict (TransactionQualificationAssessment × TransactionStore)
  append_assessment now event_id a store =
      assess_or_restore now event_id a store (get_assessment a.assessment_id store.assessments)

-- The rows of one case and epoch.
abbrev pub in_epoch : Uuid → ℕ → TransactionQualificationAssessment → Bool
in_epoch case_id authority_epoch r =
    (r.case_id == case_id) && (r.authority_epoch == authority_epoch)

-- `_current_assessments_from_rows`
unfoldable pub current_from_rows :
    List TransactionQualificationAssessment
    → Outcome TransactionRecordConflict (List TransactionQualificationAssessment)
current_from_rows rows =
    let current = keep (λ r. not (is_superseded rows r.assessment_id)) rows in
    if any (λ r. ltb 1 (length (keep (λ s. s.assessment_kind == r.assessment_kind) current)))
      current
    then err multiple_current_assessments
    else ok current

-- `current_assessments_in_session`, and `list_current_assessments`
unfoldable pub current_assessments :
    Uuid
    → ℕ
    → List TransactionQualificationAssessment
    → Outcome TransactionRecordConflict (List TransactionQualificationAssessment)
current_assessments case_id authority_epoch rows =
    current_from_rows (keep (in_epoch case_id authority_epoch) rows)

-- `list_assessments`: by time, and then by id
unfoldable pub list_assessments :
    Uuid → ℕ → List TransactionQualificationAssessment → List TransactionQualificationAssessment
list_assessments case_id authority_epoch rows =
    sort_by
      (λ r s.
        ltb r.created_at s.created_at
        || ((r.created_at == s.created_at) && leb r.assessment_id s.assessment_id))
      (keep (in_epoch case_id authority_epoch) rows)

-- `list_evidence_links`: by time, and then by id
unfoldable pub list_evidence_links :
    Uuid → ℕ → List AdministrativeCaseEvidenceLink → List AdministrativeCaseEvidenceLink
list_evidence_links case_id authority_epoch links =
    sort_by
      (λ l m.
        ltb l.linked_at m.linked_at || ((l.linked_at == m.linked_at) && leb l.link_id m.link_id))
      (keep (λ l. (l.case_id == case_id) && (l.authority_epoch == authority_epoch)) links)
