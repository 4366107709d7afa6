-- ===== src/Persistence/Conflicts.antt =====
-- Transactions of unit_of_work.py and persistence.py on a case, run one after another.
use administrative_orchestra.Base.{
  >>-eq-ok, >>=-eq-ok, All, Bool, Bool-cases, Dict, List, Option, Outcome, Text, Timestamp, Uuid,
  [], ap, arith, err, false, inl, inr, is_ok, leb, list_eq, nat_eq, none, not, ok, ok_injective,
  option_eq, or_raise, or_raise-eq-ok, refl, some, string_eq, subst, sym, ℕ, ◌+◌, ◌==◌, ◌∙◌, ◌∷◌,
  ◌≡◌, ◌≤◌,
}
use administrative_orchestra.Domain.{AdministrativeCase, FactSnapshot, Value, policy_eq}
use administrative_orchestra.Messaging.{older}
use administrative_orchestra.Persistence.Cases.{
  copied, copy_case_into_row, find_case, persist_fact_snapshot, update_case,
}
use administrative_orchestra.Persistence.Copies.{find-copy, find-copy_other}
use administrative_orchestra.Persistence.Records.{
  CaseStore, PersistenceError, case_not_found, epoch_not_advanced, other_case, policy_differs,
  snapshot_not_new, snapshot_required, version_conflict, version_not_advanced,
}
use administrative_orchestra.Persistence.Work.{
  apply_policy_transition, facts_replaced, policy_applied, replace_facts_and_apply_policy,
  require_version, snapshot_id_of,
}
use administrative_orchestra.Policy.{PolicyEvaluation}

abbrev version_in : Option AdministrativeCase → ℕ
version_in none = 0
version_in (some c) = c.version

-- A call of the unit of work: which one, with its arguments.
pub data Method : Type 0 where
  policy_transition facts_replacement : Method
  update : Text → Dict Text Value → Method

pub record Attempt : Type 0 where
  pub method : Method
  pub now : Timestamp
  pub event_id : Uuid
  pub before : AdministrativeCase
  pub after : AdministrativeCase
  pub evaluation : PolicyEvaluation

-- What the callers of `update_case` see to, and the two methods of the unit of work check themselves:
-- the case stays the same one and its version grows.
abbrev AdvancesAs : Method → Attempt → Type 0
AdvancesAs Method.policy_transition w = Unit
AdvancesAs Method.facts_replacement w = Unit
AdvancesAs (Method.update event_type payload) w =
    (w.after.case_id ≡ w.before.case_id) × (leb w.after.version w.before.version ≡ false)

abbrev pub Advances : Attempt → Type 0
Advances w = AdvancesAs w.method w

module _ (str : Uuid → Text) (same : FactSnapshot → FactSnapshot → Bool) where
  abbrev perform_as : Method → Attempt → CaseStore → Outcome PersistenceError CaseStore
  perform_as Method.policy_transition w store =
      apply_policy_transition str same w.now w.event_id w.before w.after w.evaluation store
  perform_as Method.facts_replacement w store =
      replace_facts_and_apply_policy str same w.now w.event_id w.before w.after w.evaluation store
  perform_as (Method.update event_type payload) w store =
      update_case w.now w.after w.before.version event_type payload store

  abbrev pub perform : Attempt → CaseStore → Outcome PersistenceError CaseStore
  perform w store = perform_as w.method w store

  -- Calls one after another; what a call that raises has done is rolled back.
  abbrev pub perform_all : List Attempt → CaseStore → CaseStore
  perform_all [] store = store
  perform_all (w ∷ ws) store = elim (perform w store) [
    | ok store' ↦ perform_all ws store'
    | err e ↦ perform_all ws store
  ]

  -- What a call that returns found and left.
  record Moved (w : Attempt) (store store' : CaseStore) : Type 0 where
    pub row : AdministrativeCase
    pub found : find_case w.before.case_id store.cases ≡ some row
    pub was_read : row.version ≡ w.before.version
    pub advanced : leb w.after.version w.before.version ≡ false
    pub writes : copy_case_into_row w.before.case_id w.after store.cases ≡ store'.cases
    pub written : find_case w.before.case_id store'.cases ≡ some (copied w.after row)

  checked :
      (w : Attempt) (store : CaseStore) (u : Unit {0})
      → require_version (find_case w.before.case_id store.cases) w.before ≡ ok u
      → (row : AdministrativeCase) × ((find_case w.before.case_id store.cases ≡ some row)
          × (row.version ≡ w.before.version))
  unfolding require_version
  checked w store u h =
      let (row, found, h₁) =
        >>=-eq-ok (or_raise (find_case w.before.case_id store.cases) case_not_found) _ h in
      let (version, h₂) = >>-eq-ok (not (row.version == w.before.version)) version_conflict _ h₁ in
      (row, (or_raise-eq-ok _ case_not_found row found, ground (arith, version)))

  -- The end of both calls: the version is checked and the case is written.
  settled :
      (w : Attempt) (store : CaseStore) (u : Unit {0}) (store' : CaseStore)
      → leb w.after.version w.before.version ≡ false
      → require_version (find_case w.before.case_id store.cases) w.before ≡ ok u
      → copy_case_into_row w.before.case_id w.after store.cases ≡ store'.cases
      → Moved w store store'
  settled w store u store' advanced checks writes =
      let (row, (found, was_read)) = checked w store u checks in
      record {
        row = row;
        found = found;
        was_read = was_read;
        advanced = advanced;
        writes = writes;
        written =
            subst (λ rows. find_case w.before.case_id rows ≡ some (copied w.after row)) writes
              (find-copy w.before.case_id w.after row store.cases found);
      }

  policy_transition-Moved :
      (w : Attempt) (store store' : CaseStore)
      → perform_as Method.policy_transition w store ≡ ok store'
      → Moved w store store'
  unfolding apply_policy_transition policy_applied
  policy_transition-Moved w store store' h =
      let (same_case, h₁) = >>-eq-ok (not (w.before.case_id == w.after.case_id)) other_case _ h in
      let (advanced, h₂) =
        >>-eq-ok (leb w.after.version w.before.version) version_not_advanced _ h₁ in
      let (epoch, h₃) =
        >>-eq-ok (not (w.after.authority_epoch == w.before.authority_epoch + 1)) epoch_not_advanced
          _ h₂ in
      let (policy, h₄) =
        >>-eq-ok (not (w.after.policy_ref == some w.evaluation.policy_ref)) policy_differs _ h₃ in
      let (u, checks, h₅) =
        >>=-eq-ok (require_version (find_case w.before.case_id store.cases) w.before) _ h₄ in
      settled w store u store' advanced checks (ap (λ s. s.cases) (ok_injective _ store' _ refl h₅))

  facts_replacement-Moved :
      (w : Attempt) (store store' : CaseStore)
      → perform_as Method.facts_replacement w store ≡ ok store'
      → Moved w store store'
  unfolding replace_facts_and_apply_policy facts_replaced
  facts_replacement-Moved w store store' h =
      let (same_case, h₁) = >>-eq-ok (not (w.before.case_id == w.after.case_id)) other_case _ h in
      let (snapshot, _, h₂) = >>=-eq-ok (or_raise w.after.fact_snapshot snapshot_required) _ h₁ in
      let (new, h₃) =
        >>-eq-ok (snapshot_id_of w.before.fact_snapshot == some snapshot.snapshot_id)
          snapshot_not_new _ h₂ in
      let (advanced, h₄) =
        >>-eq-ok (leb w.after.version w.before.version) version_not_advanced _ h₃ in
      let (epoch, h₅) =
        >>-eq-ok (leb w.after.authority_epoch w.before.authority_epoch) epoch_not_advanced _ h₄ in
      let (policy, h₆) =
        >>-eq-ok (not (w.after.policy_ref == some w.evaluation.policy_ref)) policy_differs _ h₅ in
      let (u, checks, h₇) =
        >>=-eq-ok (require_version (find_case w.before.case_id store.cases) w.before) _ h₆ in
      let (snapshots, _, h₈) =
        >>=-eq-ok (persist_fact_snapshot same w.now w.after store.snapshots) _ h₇ in
      settled w store u store' advanced checks (ap (λ s. s.cases) (ok_injective _ store' _ refl h₈))

  update-Moved :
      (event_type : Text) (payload : Dict Text Value) (w : Attempt) (store store' : CaseStore)
      → AdvancesAs (Method.update event_type payload) w
      → perform_as (Method.update event_type payload) w store ≡ ok store'
      → Moved w store store'
  unfolding update_case require_version
  update-Moved event_type payload w store store' (same_case, advanced) h =
      let (row, found, h₁) =
        >>=-eq-ok (or_raise (find_case w.after.case_id store.cases) case_not_found) _ h in
      let (same_version, h₂) =
        >>-eq-ok (not (row.version == w.before.version)) version_conflict _ h₁ in
      let found_row : find_case w.before.case_id store.cases ≡ some row =
        sym (ap (λ id. find_case id store.cases) same_case)
        ∙ or_raise-eq-ok _ case_not_found row found in
      let writes =
        sym (ap (λ id. copy_case_into_row id w.after store.cases) same_case)
        ∙ ap (λ s. s.cases) (ok_injective _ store' _ refl h₂) in
      record {
        row = row;
        found = found_row;
        was_read = ground (arith, same_version);
        advanced = advanced;
        writes = writes;
        written =
            subst (λ rows. find_case w.before.case_id rows ≡ some (copied w.after row)) writes
              (find-copy w.before.case_id w.after row store.cases found_row);
      }

  perform-Moved :
      (w : Attempt) (store store' : CaseStore)
      → Advances w
      → perform w store ≡ ok store'
      → Moved w store store'
  perform-Moved w store store' a h = by_method w.method a h
    where
      by_method :
          (m : Method) → AdvancesAs m w → perform_as m w store ≡ ok store' → Moved w store store'
      by_method Method.policy_transition a h = policy_transition-Moved w store store' h
      by_method Method.facts_replacement a h = facts_replacement-Moved w store store' h
      by_method (Method.update event_type payload) a h =
          update-Moved event_type payload w store store' a h

  -- A call that returns takes no version back.
  version-grows :
      (id : Uuid) (w : Attempt) (store store' : CaseStore)
      → Moved w store store'
      → version_in (find_case id store.cases) ≤ version_in (find_case id store'.cases)
  version-grows id w store store' moved = elim (Bool-cases (w.before.case_id == id)) [
    | inl it ↦
        let same : w.before.case_id ≡ id = ground (arith, it) in
        let old : version_in (find_case id store.cases) ≡ moved.row.version =
          sym (ap (λ i. version_in (find_case i store.cases)) same) ∙ ap version_in moved.found in
        let new : version_in (find_case id store'.cases) ≡ w.after.version =
          sym (ap (λ i. version_in (find_case i store'.cases)) same)
          ∙ ap version_in moved.written in
        rw (old, new) (ground (arith, moved.was_read, moved.advanced))
    | inr other ↦
        let stays : version_in (find_case id store'.cases) ≡ version_in (find_case id store.cases) =
          sym (ap (λ rows. version_in (find_case id rows)) moved.writes)
          ∙ ap version_in (find-copy_other id w.before.case_id w.after store.cases other) in
        rw stays (ground arith)
  ]

  versions-grow :
      (id : Uuid) (ws : List Attempt) (store : CaseStore)
      → All Advances ws
      → version_in (find_case id store.cases)
        ≤ version_in (find_case id (perform_all ws store).cases)
  versions-grow id [] store h = ground arith
  versions-grow id (w ∷ ws) store (a, h) =
      step (perform w store) refl (λ s. versions-grow id ws s h)
    where
      step :
          (o : Outcome PersistenceError CaseStore)
          → perform w store ≡ o
          → ((s : CaseStore)
              → version_in (find_case id s.cases)
                ≤ version_in (find_case id (perform_all ws s).cases))
          → version_in (find_case id store.cases)
            ≤ version_in (
                find_case id
                  (elim o as (λ _. CaseStore) [
                    | ok store' ↦ perform_all ws store'
                    | err e ↦ perform_all ws store
                  ]).cases)
      step (err e) k later = later store
      step (ok store') k later =
          ground (
            arith,
            version-grows id w store store' (perform-Moved w store store' a k),
            later store',
          )

  -- Transactions run one after another, each a call of apply_policy_transition, of
  -- replace_facts_and_apply_policy or of update_case; a caller of update_case keeps the case and gives
  -- it a greater version. Once a call has succeeded on a case, then after any further calls no call
  -- that was prepared from the same version of the case, or from an older one, succeeds.
  pub perform_once :
      (w v : Attempt) (between : List Attempt) (store store' : CaseStore)
      → Advances w
      → Advances v
      → All Advances between
      → w.before.case_id ≡ v.before.case_id
      → v.before.version ≤ w.before.version
      → perform w store ≡ ok store'
      → is_ok (perform v (perform_all between store')) ≡ false
  perform_once w v between store store' a b c same_case older h =
      refused (perform v (perform_all between store')) refl
    where
      refused :
          (o : Outcome PersistenceError CaseStore)
          → perform v (perform_all between store') ≡ o
          → is_ok o ≡ false
      refused (err e) k = refl
      refused (ok last) k =
          let first = perform-Moved w store store' a h in
          let second = perform-Moved v (perform_all between store') last b k in
          let grown = versions-grow v.before.case_id between store' c in
          let before : version_in (find_case v.before.case_id store'.cases) ≡ w.after.version =
            sym (ap (λ id. version_in (find_case id store'.cases)) same_case)
            ∙ ap version_in first.written in
          let after : version_in (find_case v.before.case_id (perform_all between store').cases)
              ≡ second.row.version =
            ap version_in second.found in
          ground (arith, before, after, grown, second.was_read, first.advanced, older)
