-- ===== src/Persistence/Acceptance.antt =====
-- Transitions of service.py and fact_transitions.py, stored by unit_of_work.py.
use administrative_orchestra.Base.{
  >>-eq-ok, Bool, List, Outcome, Text, Timestamp, Uuid, ap, arith, beq_refl, false, find,
  if◌then◌else◌, leb, list_eq, nat_eq, none, not, ok, ok_injective, option_beq_iff, option_eq,
  raise_if, refl, some, string_eq, subst, sym, true, ◌+◌, ◌==◌, ◌>>◌, ◌||◌, ◌∙◌, ◌∷◌, ◌≡◌,
}
use administrative_orchestra.Cases.{
  apply_policy_evaluation, disposition_status, is_terminal, policy_not_ready, policy_status,
  replace_facts_for_reevaluation, start_policy_evaluation, terminal_facts,
}
use administrative_orchestra.Domain.{
  AdministrativeCase, CaseStatus, FactSnapshot, policy_eq, status_eq,
}
use administrative_orchestra.Persistence.Cases.{
  copy_case_into_row, find_case, persist_fact_snapshot,
}
use administrative_orchestra.Persistence.Copies.{find-copy}
use administrative_orchestra.Persistence.Records.{
  CaseStore, FactSnapshotHistoryRow, epoch_not_advanced, other_case, policy_differs,
  snapshot_not_new, version_not_advanced,
}
use administrative_orchestra.Persistence.Work.{
  apply_policy_transition, facts_replaced, policy_applied, replace_facts_and_apply_policy,
  require_version, snapshot_id_of,
}
use administrative_orchestra.Policy.{PolicyDisposition, PolicyEvaluation, disposition_eq}

-- A guard that does not hold is passed.
pass_guard {ℓ} :
    {E : Type 0} {B : Type ℓ} (c : Bool) (e : E) (k : Outcome E B)
    → c ≡ false
    → (raise_if c e >> k) ≡ k
pass_guard true e k h = cc
pass_guard false e k h = refl

-- The row of an unchanged case passes the check.
version_met :
    (c : AdministrativeCase) (cases : List AdministrativeCase)
    → find_case c.case_id cases ≡ some c
    → require_version (find_case c.case_id cases) c ≡ ok tt
unfolding require_version
version_met c cases h = rw h (rw (beq_refl c.version) (rw (beq_refl c.authority_epoch) refl))

module _ (str : Uuid → Text) (same : FactSnapshot → FactSnapshot → Bool) where
  module _ (at : Timestamp) (event_id : Uuid) (c after : AdministrativeCase)
      (evaluation : PolicyEvaluation) (store : CaseStore)
      (found : find_case c.case_id store.cases ≡ some c) (same_case : after.case_id ≡ c.case_id)
      (same_birth : after.created_at ≡ c.created_at)
      (policy : after.policy_ref ≡ some evaluation.policy_ref) where
    -- The case that replaces the stored one is found again.
    stored_after : find_case c.case_id (copy_case_into_row c.case_id after store.cases) ≡ some after
    stored_after =
        find-copy c.case_id after c store.cases found
        ∙ ap some (
            ap (λ i. record after { case_id = i; created_at = c.created_at }) (sym same_case)
            ∙ ap (λ t. record after { case_id = after.case_id; created_at = t }) (sym same_birth))

    transition_stored :
        leb after.version c.version ≡ false
        → after.authority_epoch ≡ c.authority_epoch + 1
        → (store' : CaseStore) × ((apply_policy_transition str same at event_id c after evaluation
                store
              ≡ ok store')
            × (find_case c.case_id store'.cases ≡ some after))
    unfolding apply_policy_transition policy_applied
    transition_stored later epoch = (
      policy_applied str same at event_id c after evaluation store,
      (
        pass_guard (not (c.case_id == after.case_id)) other_case _ (ground (arith, same_case))
            ∙ pass_guard (leb after.version c.version) version_not_advanced _ later
            ∙ pass_guard (not (after.authority_epoch == c.authority_epoch + 1)) epoch_not_advanced _
                (ground (arith, epoch))
            ∙ pass_guard (not (after.policy_ref == some evaluation.policy_ref)) policy_differs _
                (ap not ((option_beq_iff after.policy_ref (some evaluation.policy_ref)).1 policy))
            ∙ ap (λ o. o >> ok (policy_applied str same at event_id c after evaluation store))
                (version_met c store.cases found),
        stored_after,
      ),
    )

  replacement_stored :
      (at : Timestamp) (event_id : Uuid) (c x : AdministrativeCase) (snapshot : FactSnapshot)
      (evaluation : PolicyEvaluation) (store : CaseStore)
      → find_case c.case_id store.cases ≡ some c
      → x.case_id ≡ c.case_id
      → x.created_at ≡ c.created_at
      → x.policy_ref ≡ some evaluation.policy_ref
      → (snapshot_id_of c.fact_snapshot == some snapshot.snapshot_id) ≡ false
      → find (λ r. r.snapshot.snapshot_id == snapshot.snapshot_id) store.snapshots ≡ none
      → leb x.version c.version ≡ false
      → leb x.authority_epoch c.authority_epoch ≡ false
      → (store' : CaseStore) × ((replace_facts_and_apply_policy str same at event_id c
              (record x { fact_snapshot = some snapshot })
              evaluation
              store
            ≡ ok store')
          × (find_case c.case_id store'.cases ≡ some (record x { fact_snapshot = some snapshot })))
  unfolding replace_facts_and_apply_policy facts_replaced persist_fact_snapshot
  replacement_stored at event_id c x snapshot evaluation store found same_case same_birth policy new
        unknown later epoch =
      let after = record x { fact_snapshot = some snapshot } in
      let row : FactSnapshotHistoryRow = record {
        snapshot = snapshot;
        case_id = x.case_id;
        case_version = x.version;
        authority_epoch = x.authority_epoch;
        recorded_at = at;
      } in
      let written =
        facts_replaced str same at event_id c after snapshot evaluation (row ∷ store.snapshots)
          store in
      (
        written,
        (
          rw unknown (
              pass_guard (not (c.case_id == x.case_id)) other_case _ (ground (arith, same_case))
              ∙ pass_guard (snapshot_id_of c.fact_snapshot == some snapshot.snapshot_id)
                  snapshot_not_new _ new
              ∙ pass_guard (leb x.version c.version) version_not_advanced _ later
              ∙ pass_guard (leb x.authority_epoch c.authority_epoch) epoch_not_advanced _ epoch
              ∙ pass_guard (not (x.policy_ref == some evaluation.policy_ref)) policy_differs _
                  (ap not ((option_beq_iff x.policy_ref (some evaluation.policy_ref)).1 policy))
              ∙ ap (λ o. o >> ok written) (version_met c store.cases found)),
          stored_after at event_id c after evaluation store found same_case same_birth policy,
        ),
      )

  -- Whatever apply_policy_evaluation makes of a case, apply_policy_transition stores it over that
  -- case, if the stored case is still the one that was evaluated.
  pub evaluated_stored :
      (now at : Timestamp) (event_id : Uuid) (c after : AdministrativeCase)
      (evaluation : PolicyEvaluation) (store : CaseStore)
      → apply_policy_evaluation now c evaluation ≡ ok after
      → find_case c.case_id store.cases ≡ some c
      → (store' : CaseStore) × ((apply_policy_transition str same at event_id c after evaluation
              store
            ≡ ok store')
          × (find_case c.case_id store'.cases ≡ some after))
  unfolding apply_policy_evaluation
  evaluated_stored now at event_id c after evaluation store h found =
      let (ready, e) =
        >>-eq-ok (not (c.status == CaseStatus.ready_for_policy)) policy_not_ready _ h in
      subst
        (λ x.
          (store' : CaseStore) × ((apply_policy_transition str same at event_id c x evaluation store
              ≡ ok store')
            × (find_case c.case_id store'.cases ≡ some x)))
        (ok_injective _ after _ refl e)
        (transition_stored at event_id c _ evaluation store found refl refl refl (ground arith)
          refl)

  -- If new facts for a case are followed by a policy evaluation, then replace_facts_and_apply_policy
  -- stores the outcome over that case, if the stored case is still the one that got the facts, and
  -- the snapshot has an id that neither the case nor the history has.
  pub reevaluated_stored :
      (now later last at : Timestamp) (event_id : Uuid) (c changed ready after : AdministrativeCase)
      (snapshot : FactSnapshot) (evaluation : PolicyEvaluation) (store : CaseStore)
      → replace_facts_for_reevaluation now c snapshot ≡ ok changed
      → start_policy_evaluation later changed ≡ ok ready
      → apply_policy_evaluation last ready evaluation ≡ ok after
      → find_case c.case_id store.cases ≡ some c
      → (snapshot_id_of c.fact_snapshot == some snapshot.snapshot_id) ≡ false
      → find (λ r. r.snapshot.snapshot_id == snapshot.snapshot_id) store.snapshots ≡ none
      → (store' : CaseStore) × ((replace_facts_and_apply_policy str same at event_id c after
              evaluation store
            ≡ ok store')
          × (find_case c.case_id store'.cases ≡ some after))
  unfolding replace_facts_for_reevaluation start_policy_evaluation apply_policy_evaluation
  reevaluated_stored now later last at event_id c changed ready after snapshot evaluation store h k
        l found new unknown =
      let evaluated : AdministrativeCase → AdministrativeCase = λ r. record r {
        policy_ref = some evaluation.policy_ref;
        version = r.version + 1;
        authority_epoch = r.authority_epoch + 1;
        updated_at = last;
        status = disposition_status evaluation.disposition;
        reopen_reason =
            if evaluation.disposition == PolicyDisposition.reopen_required
            then evaluation.reopen_reason
            else r.reopen_reason;
      } in
      let started : AdministrativeCase → AdministrativeCase = λ r. record r {
        status = CaseStatus.ready_for_policy;
        version = r.version + 1;
        updated_at = later;
      } in
      let with_facts : AdministrativeCase = record c {
        fact_snapshot = some snapshot;
        policy_ref = none;
        status = CaseStatus.gathering_facts;
        reopen_reason = none;
        version = c.version + 1;
        authority_epoch = c.authority_epoch + 1;
        updated_at = now;
      } in
      let is_changed : with_facts ≡ changed =
        ok_injective _ changed _ refl (>>-eq-ok (is_terminal c.status) terminal_facts _ h).1 in
      let is_ready : started changed ≡ ready =
        ok_injective _ ready _ refl
          (>>-eq-ok
            (not (
              (changed.status == CaseStatus.received)
              || ((changed.status == CaseStatus.gathering_facts)
                  || (changed.status == CaseStatus.ready_for_policy))))
            policy_status _ k).1 in
      let is_after : evaluated ready ≡ after =
        ok_injective _ after _ refl
          (>>-eq-ok (not (ready.status == CaseStatus.ready_for_policy)) policy_not_ready _ l).1 in
      subst
        (λ x.
          (store' : CaseStore) × ((replace_facts_and_apply_policy str same at event_id c x
                evaluation store
              ≡ ok store')
            × (find_case c.case_id store'.cases ≡ some x)))
        (ap (λ r. evaluated (started r)) is_changed ∙ ap evaluated is_ready ∙ is_after)
        (replacement_stored at event_id c (evaluated (started with_facts)) snapshot evaluation store
          found refl refl refl new unknown (ground arith) (ground arith))
