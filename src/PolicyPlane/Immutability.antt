-- ===== src/PolicyPlane/Immutability.antt =====
-- The writes of PolicyRepository (policy_plane.py) against a stored version.
use mathlib.Core.Path.{subst₂}
use administrative_orchestra.Base.{
  Bool-cases, Eq, List, Option, Option-cases, Text, [], ap, arith, inl, inr, map, nat_eq, none, ok,
  option_eq, refl, some, str_beq_iff, string_eq, true, ◌∷◌, ◌≡◌,
}
use administrative_orchestra.Domain.{status_eq}
use administrative_orchestra.PolicyPlane.Commands.{Command, perform}
use administrative_orchestra.PolicyPlane.Store.{
  PolicyStore, activate, assert_no_active_overlap, create_draft, get_version, has_key, put_version,
  retire, set_status, with_status,
}
use administrative_orchestra.PolicyPlane.Versions.{
  PolicyVersionRecord, PolicyVersionStatus, version_status_eq,
}

module _ {Json : Type 0} where
  key-with_status :
      (i w p v : Text) (status : PolicyVersionStatus) (r : PolicyVersionRecord Json)
      → has_key p v (with_status i w status r) ≡ has_key p v r
  key-with_status i w p v status r = elim (Bool-cases (has_key i w r)) [
    | inl same ↦ rw same refl
    | inr other ↦ rw other refl
  ]

  pub get-write_status :
      (i w p v : Text) (status : PolicyVersionStatus) (rows : List (PolicyVersionRecord Json))
      {q : PolicyVersionRecord Json}
      → get_version p v rows ≡ some q
      → get_version p v (map (with_status i w status) rows) ≡ some (with_status i w status q)
  get-write_status i w p v status [] h = ground arith
  get-write_status i w p v status (r ∷ rows) h = elim (Bool-cases (has_key p v r)) [
    | inl same ↦ rw (key-with_status i w p v status r, same) (ap with_status_of (rw same at h))
    | inr other ↦
        rw (key-with_status i w p v status r, other)
          (get-write_status i w p v status rows (rw other at h))
  ]
    where
      with_status_of : Option (PolicyVersionRecord Json) → Option (PolicyVersionRecord Json)
      with_status_of none = none
      with_status_of (some q) = some (with_status i w status q)

  pub get-key :
      (p v : Text) (rows : List (PolicyVersionRecord Json)) {q : PolicyVersionRecord Json}
      → get_version p v rows ≡ some q
      → has_key p v q ≡ true
  get-key p v [] h = ground arith
  get-key p v (r ∷ rows) h = elim (Bool-cases (has_key p v r)) [
    | inl same ↦ ground arith
    | inr other ↦ get-key p v rows (rw other at h)
  ]

  abbrev pub Restated : PolicyVersionRecord Json → Option (PolicyVersionRecord Json) → Type 0
  Restated q o = (s : PolicyVersionStatus) × (o ≡ some (record q { status = s }))

  Restated-write :
      (i w p v : Text) (status : PolicyVersionStatus) (rows : List (PolicyVersionRecord Json))
      (q : PolicyVersionRecord Json)
      → get_version p v rows ≡ some q
      → Restated q (get_version p v (map (with_status i w status) rows))
  Restated-write i w p v status rows q h = elim (Bool-cases (has_key i w q)) [
    | inl same ↦ (status, ground (arith, get-write_status i w p v status rows h))
    | inr other ↦ (q.status, ground (arith, get-write_status i w p v status rows h))
  ]

  module _ ⦃json : Eq Json⦄ where
    put_keeps :
        (r q x : PolicyVersionRecord Json) (store after : PolicyStore Json) (p v : Text)
        → get_version p v store.versions ≡ some q
        → put_version r store ≡ ok (x, after)
        → Restated q (get_version p v after.versions)
    unfolding put_version assert_no_active_overlap
    put_keeps r q x store after p v g h =
        elim (Option-cases (get_version r.policy_id r.version store.versions)) [
          | inl e ↦ (q.status, kept e)
          | inr (f, e) ↦ (q.status, ground (arith, e, g))
        ]
      where
        kept :
            get_version r.policy_id r.version store.versions ≡ none
            → get_version p v after.versions ≡ some (record q { status = q.status })
        kept e = elim (Bool-cases (has_key p v r)) [
          | inl same ↦
              let p_is : r.policy_id ≡ p = ground (arith, str_beq_iff r.policy_id p) in
              let v_is : r.version ≡ v = ground (arith, str_beq_iff r.version v) in
              ground (arith, subst₂ (λ a b. get_version a b store.versions ≡ none) p_is v_is e)
          | inr other ↦ ground arith
        ]

    -- A write that succeeds keeps every stored version: its owner, window, definition and time of
    -- creation stay, and only its status may change.
    pub perform_keeps :
        (c : Command Json) (store : PolicyStore Json) (p v : Text) {q x : PolicyVersionRecord Json}
        {after : PolicyStore Json}
        → get_version p v store.versions ≡ some q
        → perform c store ≡ ok (x, after)
        → Restated q (get_version p v after.versions)
    unfolding perform create_draft set_status activate retire assert_no_active_overlap
    perform_keeps (Command.put r) store p v {q} {x} {after} g h =
        put_keeps r q x store after p v g h
    perform_keeps (Command.draft r) store p v {q} {x} {after} g h =
        put_keeps r q x store after p v g (ground arith)
    perform_keeps (Command.status i w s) store p v {q} {x} {after} g h =
        let (t, e) = Restated-write i w p v s store.versions q g in (t, ground arith)
    perform_keeps (Command.activation id now i w actor reason) store p v {q} {x} {after} g h =
        let (t, e) = Restated-write i w p v PolicyVersionStatus.active store.versions q g in
        (t, ground arith)
    perform_keeps (Command.retirement id now i w actor reason) store p v {q} {x} {after} g h =
        let (t, e) = Restated-write i w p v PolicyVersionStatus.retired store.versions q g in
        (t, ground arith)
