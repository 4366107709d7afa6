-- ===== src/PolicyPlane/Activation.antt =====
-- `PolicyRepository.activate` with `resolve_current` (policy_plane.py).
use administrative_orchestra.Base.{
  Any, Any-sort_by, Bool, Bool-cases, Eq, List, Option-cases, Text, Timestamp, Uuid, [], ap, arith,
  false, here, inl, inr, is_blank, keep, keep_intro, keep_mem, list_eq, nat_eq, ok, option_eq, refl,
  some, str_beq_iff, string_eq, strip, subst, sym, there, true, ◌++◌, ◌==◌, ◌↔◌, ◌∙◌, ◌∷◌, ◌≡◌, ◌⊎◌,
}
use administrative_orchestra.Domain.{policy_current, policy_eq}
use administrative_orchestra.PolicyPlane.Commands.{Command, perform}
use administrative_orchestra.PolicyPlane.Immutability.{get-key, get-write_status}
use administrative_orchestra.PolicyPlane.Listing.{IsRow}
use administrative_orchestra.PolicyPlane.Resolution.{resolve_current_lem}
use administrative_orchestra.PolicyPlane.Separation.{AreSeparate}
use administrative_orchestra.PolicyPlane.Store.{
  PolicyStore, activate, assert_no_active_overlap, event_before, get_version, has_key,
  list_lifecycle_events, resolve_current,
}
use administrative_orchestra.PolicyPlane.Versions.{
  PolicyLifecycleEvent, PolicyVersionRecord, PolicyVersionStatus, policy_ref, version_status_eq,
}
use administrative_orchestra.PolicyPlane.Writes.{perform-AreSeparate}

-- The event that an activation records.
abbrev pub activation_event : Uuid → Timestamp → Text → Text → Text → Text → PolicyLifecycleEvent
activation_event id now p v actor reason = record {
  event_id = id;
  policy_id = p;
  version = v;
  action = "activate";
  actor_principal_id = actor;
  reason = reason;
  occurred_at = now;
}

at_end :
    (e x : PolicyLifecycleEvent) (events : List PolicyLifecycleEvent)
    → Any (λ y. y ≡ e) (events ++ x ∷ []) ↔ (Any (λ y. y ≡ e) events ⊎ (x ≡ e))
at_end e x [] = (
  λ m. elim m [ here q ↦ inr q | there n ↦ elim n [ ] ],
  λ s. elim s [ inl n ↦ elim n [ ] | inr q ↦ here q ],
)
at_end e x (y ∷ events) =
    let (into, back) = at_end e x events in
    (
      λ m. elim m [
        | here q ↦ inl (here q)
        | there n ↦ elim (into n) [ inl k ↦ inl (there k) | inr q ↦ inr q ]
      ],
      λ s. elim s [
        | inl m ↦ elim m [ here q ↦ here q | there n ↦ there (back (inl n)) ]
        | inr q ↦ there (back (inr q))
      ],
    )

module _ {Json : Type 0} where
  get-IsRow :
      (p v : Text) (rows : List (PolicyVersionRecord Json)) {q : PolicyVersionRecord Json}
      → get_version p v rows ≡ some q
      → IsRow q rows
  get-IsRow p v [] h = ground arith
  get-IsRow p v (r ∷ rows) h = elim (Bool-cases (has_key p v r)) [
    | inl same ↦ here (ground arith)
    | inr other ↦ there (get-IsRow p v rows (rw other at h))
  ]

  module _ ⦃json : Eq Json⦄ (collate : Text → Text → Bool) where
    activated-IsRow :
        (id : Uuid) (now : Timestamp) (p v actor reason : Text) (store : PolicyStore Json)
        {r : PolicyVersionRecord Json} {after : PolicyStore Json}
        → activate id now p v actor reason store ≡ ok (r, after)
        → IsRow r after.versions × (r.policy_id ≡ p) × (r.status ≡ PolicyVersionStatus.active)
    unfolding activate assert_no_active_overlap
    activated-IsRow id now p v actor reason store {r} {after} h =
        elim (Option-cases (get_version p v store.versions)) [
          | inl e ↦ ground (arith, e)
          | inr (f, e) ↦
              let k = get-key p v store.versions e in
              let w = get-write_status p v p v PolicyVersionStatus.active store.versions e in
              (
                get-IsRow p v after.versions (ground arith),
                ground (arith, str_beq_iff f.policy_id p),
                ground arith,
              )
        ]

    -- An event of a policy that the log has is listed.
    is_listed :
        (p : Text) (e : PolicyLifecycleEvent) (store : PolicyStore Json)
        → e.policy_id ≡ p
        → Any (λ x. x ≡ e) store.events
        → Any (λ x. x ≡ e) (list_lifecycle_events p store)
    unfolding list_lifecycle_events
    is_listed p e store q m =
        (Any-sort_by event_before (λ x. x ≡ e) (keep (λ x. x.policy_id == p) store.events)).0
          (keep_intro (λ x. x.policy_id == p) e store.events ((str_beq_iff e.policy_id p).1 q) m)

    -- A listed event is an event of the policy that the log has.
    listed_is :
        (p : Text) (e : PolicyLifecycleEvent) (store : PolicyStore Json)
        → Any (λ x. x ≡ e) (list_lifecycle_events p store)
        → Any (λ x. x ≡ e) store.events × (e.policy_id ≡ p)
    unfolding list_lifecycle_events
    listed_is p e store m =
        let (n, q) =
          keep_mem (λ x. x.policy_id == p) e store.events
            ((Any-sort_by event_before (λ x. x ≡ e) (keep (λ x. x.policy_id == p) store.events)).1
              m) in
        (n, (str_beq_iff e.policy_id p).0 q)

    -- Over rows that are apart, a version that `activate` returns is the current one of its policy at
    -- every instant of its window, the reason is not blank, and the events that are listed for the
    -- policy are those listed before and the activation, with its actor, its reason and its time.
    pub activate_lem :
        (id : Uuid) (now at : Timestamp) (p v actor reason : Text) (store : PolicyStore Json)
        {r : PolicyVersionRecord Json} {after : PolicyStore Json}
        → AreSeparate store.versions
        → activate id now p v actor reason store ≡ ok (r, after)
        → policy_current (policy_ref r) at ≡ true
        → (resolve_current collate p at after ≡ ok r)
          × (is_blank (strip reason) ≡ false)
          × ((e : PolicyLifecycleEvent)
              → Any (λ x. x ≡ e) (list_lifecycle_events p after) ↔ (
                  Any (λ x. x ≡ e) (list_lifecycle_events p store)
                  ⊎ (activation_event id now p v actor reason ≡ e)))
    unfolding perform activate assert_no_active_overlap
    activate_lem id now at p v actor reason store {r} {after} a h w =
        let (m, q, s) = activated-IsRow id now p v actor reason store h in
        let apart = perform-AreSeparate (Command.activation id now p v actor reason) store a h in
        let event = activation_event id now p v actor reason in
        let logged : after.events ≡ store.events ++ event ∷ [] = ground arith in
        (
          (resolve_current_lem collate p at after r apart).1 (m, q, ground arith),
          ground arith,
          λ e. (
            λ n.
                let (k, of) = listed_is p e after n in
                elim ((at_end e event store.events).0 (subst (Any (λ x. x ≡ e)) logged k)) [
                  | inl old ↦ inl (is_listed p e store of old)
                  | inr new ↦ inr new
                ],
            λ s. elim s [
              | inl n ↦
                  let (k, of) = listed_is p e store n in
                  is_listed p e after of (
                    subst (Any (λ x. x ≡ e)) (sym logged) ((at_end e event store.events).1 (inl k)))
              | inr new ↦ is_listed p e after (sym (ap (λ x. x.policy_id) new) ∙ refl) (
                  subst (Any (λ x. x ≡ e)) (sym logged) ((at_end e event store.events).1 (inr new)))
            ],
          ),
        )
