-- ===== src/PolicyPlane/Store.antt =====
-- PolicyRepository of policy_plane.py over a list of version rows with the primary key
-- (policy_id, version), and the lifecycle events in the order of their insertion.
use administrative_orchestra.Base.{
  Bool, Eq, List, Option, Outcome, Text, Timestamp, Uuid, [], any, err, false, if◌then◌else◌,
  is_blank, keep, leb, list_eq, ltb, map, nat_eq, none, not, ok, option_eq, or_raise, raise_if,
  some, sort_by, string_eq, strip, ◌&&◌, ◌++◌, ◌==◌, ◌>>=◌, ◌>>◌, ◌||◌, ◌∷◌,
}
use administrative_orchestra.Domain.{status_eq}
use administrative_orchestra.PolicyPlane.Versions.{
  PolicyLifecycleEvent, PolicyVersionRecord, PolicyVersionStatus, is_effective_at,
  version_status_eq, windows_overlap,
}

pub data PolicyPlaneError : Type 0 where
  version_is_immutable draft_status_required reason_required : PolicyPlaneError
  version_not_found windows_conflict : PolicyPlaneError
  no_current_version multiple_current_versions : PolicyPlaneError

pub record PolicyStore (Json : Type 0) : Type 0 where
  pub versions : List (PolicyVersionRecord Json)
  pub events : List PolicyLifecycleEvent

-- A write returns the stored version, with the store after it.
abbrev pub Stored : Type 0 → Type 0
Stored Json = Outcome PolicyPlaneError (PolicyVersionRecord Json × PolicyStore Json)

-- `excluding_version is not None and row.version == excluding_version`
abbrev pub is_excluded : Option Text → Text → Bool
is_excluded none version = false
is_excluded (some excluded) version = version == excluded

-- `if status == PolicyVersionStatus.ACTIVE: ...`
abbrev when_active :
    PolicyVersionStatus → Outcome PolicyPlaneError (Unit {0}) → Outcome PolicyPlaneError (Unit {0})
when_active status check = if status == PolicyVersionStatus.active then check else ok tt

-- `order_by(occurred_at, event_id)`
abbrev pub event_before : PolicyLifecycleEvent → PolicyLifecycleEvent → Bool
event_before a b =
    ltb a.occurred_at b.occurred_at
    || ((a.occurred_at == b.occurred_at) && leb a.event_id b.event_id)

module _ {Json : Type 0} where
  abbrev pub has_key : Text → Text → PolicyVersionRecord Json → Bool
  has_key policy_id version r = (r.policy_id == policy_id) && (r.version == version)

  -- `PolicyRepository.get_version`, and `db.get` by the primary key
  abbrev pub get_version :
      Text → Text → List (PolicyVersionRecord Json) → Option (PolicyVersionRecord Json)
  get_version policy_id version [] = none
  get_version policy_id version (r ∷ rows) =
      if has_key policy_id version r then some r else get_version policy_id version rows

  -- The row is an active one of the candidate's policy whose window overlaps the candidate's.
  abbrev pub conflicts : PolicyVersionRecord Json → Option Text → PolicyVersionRecord Json → Bool
  conflicts candidate excluding_version row =
      ((row.policy_id == candidate.policy_id) && (row.status == PolicyVersionStatus.active))
      && (not (is_excluded excluding_version row.version)
          && windows_overlap candidate.effective_from candidate.effective_until row.effective_from
              row.effective_until)

  -- `PolicyRepository._assert_no_active_overlap`
  unfoldable pub assert_no_active_overlap :
      PolicyVersionRecord Json
      → Option Text
      → List (PolicyVersionRecord Json)
      → Outcome PolicyPlaneError (Unit {0})
  assert_no_active_overlap candidate excluding_version rows =
      raise_if (any (conflicts candidate excluding_version) rows) windows_conflict

  -- `row.status = status`
  abbrev pub with_status :
      Text → Text → PolicyVersionStatus → PolicyVersionRecord Json → PolicyVersionRecord Json
  with_status policy_id version status r =
      if has_key policy_id version r then record r { status = status } else r

  abbrev pub write_status : Text → Text → PolicyVersionStatus → PolicyStore Json → PolicyStore Json
  write_status policy_id version status store = record store {
    versions = map (with_status policy_id version status) store.versions;
  }

  module _ ⦃json : Eq Json⦄ where
    abbrev pub same_definition : PolicyVersionRecord Json → PolicyVersionRecord Json → Bool
    same_definition restored r =
        (restored.policy_id == r.policy_id)
        && ((restored.version == r.version)
            && ((restored.owner == r.owner)
                && ((restored.effective_from == r.effective_from)
                    && ((restored.effective_until == r.effective_until)
                        && ((restored.definition == r.definition)
                            && (restored.created_at == r.created_at))))))

    abbrev put_new : PolicyVersionRecord Json → PolicyStore Json → Stored Json
    put_new r store = do
      when_active r.status (assert_no_active_overlap r none store.versions)
      ok (r, record store { versions = r ∷ store.versions })

    abbrev put_over :
        PolicyVersionRecord Json
        → PolicyStore Json
        → Option (PolicyVersionRecord Json)
        → Stored Json
    put_over r store none = put_new r store
    put_over r store (some restored) = do
      raise_if (not (same_definition restored r)) version_is_immutable
      ok (restored, store)

    -- `PolicyRepository.put_version`
    unfoldable pub put_version : PolicyVersionRecord Json → PolicyStore Json → Stored Json
    put_version r store = put_over r store (get_version r.policy_id r.version store.versions)

    -- `PolicyRepository.create_draft`
    unfoldable pub create_draft : PolicyVersionRecord Json → PolicyStore Json → Stored Json
    create_draft r store = do
      raise_if (not (r.status == PolicyVersionStatus.draft)) draft_status_required
      put_version r store

  -- `PolicyRepository.set_status`
  unfoldable pub set_status : Text → Text → PolicyVersionStatus → PolicyStore Json → Stored Json
  set_status policy_id version status store = do
    row ← or_raise (get_version policy_id version store.versions) version_not_found
    when_active status
        (assert_no_active_overlap (record row { status = status }) (some version) store.versions)
    ok (record row { status = status }, write_status policy_id version status store)

  abbrev add_event : PolicyLifecycleEvent → PolicyStore Json → PolicyStore Json
  add_event event store = record store { events = store.events ++ event ∷ [] }

  -- `PolicyRepository.activate`, with the id and the time of its event
  unfoldable pub activate :
      Uuid → Timestamp → Text → Text → Text → Text → PolicyStore Json → Stored Json
  activate event_id now policy_id version actor_principal_id reason store = do
    raise_if (is_blank (strip reason)) reason_required
    row ← or_raise (get_version policy_id version store.versions) version_not_found
    assert_no_active_overlap (record row { status = PolicyVersionStatus.active }) (some version)
        store.versions
    ok (
      record row { status = PolicyVersionStatus.active },
      add_event
          (record {
            event_id = event_id;
            policy_id = policy_id;
            version = version;
            action = "activate";
            actor_principal_id = actor_principal_id;
            reason = reason;
            occurred_at = now;
          })
          (write_status policy_id version PolicyVersionStatus.active store),
    )

  -- `PolicyRepository.retire`
  unfoldable pub retire :
      Uuid → Timestamp → Text → Text → Text → Text → PolicyStore Json → Stored Json
  retire event_id now policy_id version actor_principal_id reason store = do
    raise_if (is_blank (strip reason)) reason_required
    row ← or_raise (get_version policy_id version store.versions) version_not_found
    ok (
      record row { status = PolicyVersionStatus.retired },
      add_event
          (record {
            event_id = event_id;
            policy_id = policy_id;
            version = version;
            action = "retire";
            actor_principal_id = actor_principal_id;
            reason = reason;
            occurred_at = now;
          })
          (write_status policy_id version PolicyVersionStatus.retired store),
    )

  -- `ORDER BY effective_from, version`, with the database's order of texts
  module _ (collate : Text → Text → Bool) where
    abbrev pub comes_before : PolicyVersionRecord Json → PolicyVersionRecord Json → Bool
    comes_before r s =
        ltb r.effective_from s.effective_from
        || ((r.effective_from == s.effective_from) && collate r.version s.version)

    -- `PolicyRepository.list_versions`
    unfoldable pub list_versions : Text → PolicyStore Json → List (PolicyVersionRecord Json)
    list_versions policy_id store =
        sort_by comes_before (keep (λ r. r.policy_id == policy_id) store.versions)

    abbrev pub only_version :
        List (PolicyVersionRecord Json) → Outcome PolicyPlaneError (PolicyVersionRecord Json)
    only_version [] = err no_current_version
    only_version (r ∷ []) = ok r
    only_version (r ∷ s ∷ rows) = err multiple_current_versions

    -- `PolicyRepository.resolve_current`
    unfoldable pub resolve_current :
        Text → Timestamp → PolicyStore Json → Outcome PolicyPlaneError (PolicyVersionRecord Json)
    resolve_current policy_id at store =
        only_version (keep (λ r. is_effective_at r at) (list_versions policy_id store))

  -- `PolicyRepository.list_lifecycle_events` of one policy
  unfoldable pub list_lifecycle_events : Text → PolicyStore Json → List PolicyLifecycleEvent
  list_lifecycle_events policy_id store =
      sort_by event_before (keep (λ e. e.policy_id == policy_id) store.events)
