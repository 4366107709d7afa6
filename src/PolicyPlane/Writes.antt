-- ===== src/PolicyPlane/Writes.antt =====
-- The writes of PolicyRepository (policy_plane.py) against the separation of the rows.
use administrative_orchestra.Base.{
  Eq, List, Option-cases, Text, [], any, arith, err, false, inl, inr, nat_eq, ok, option_eq, refl,
  some, string_eq, ◌&&◌, ◌==◌, ◌∷◌, ◌≡◌,
}
use administrative_orchestra.Domain.{status_eq}
use administrative_orchestra.PolicyPlane.Commands.{
  Command, perform, perform_all, policy_writes, settled,
}
use administrative_orchestra.PolicyPlane.Separation.{
  AreSeparate, found-Fits, new_separate, write_rows,
}
use administrative_orchestra.PolicyPlane.Store.{
  PolicyStore, Stored, conflicts, get_version, write_status,
}
use administrative_orchestra.PolicyPlane.Versions.{
  PolicyVersionRecord, PolicyVersionStatus, version_status_eq,
}

module _ {Json : Type 0} where
  write_status-AreSeparate :
      (policy_id version : Text) (status : PolicyVersionStatus) (store : PolicyStore Json)
      {f : PolicyVersionRecord Json}
      → AreSeparate store.versions
      → get_version policy_id version store.versions ≡ some f
      → ((status == PolicyVersionStatus.active)
          && any (conflicts (record f { status = status }) (some version)) store.versions)
        ≡ false
      → AreSeparate (write_status policy_id version status store).versions
  write_status-AreSeparate policy_id version status store {f} a h n =
      let (b, k) = found-Fits policy_id version status f store.versions a h n in
      write_rows policy_id version status f store.versions k b a

  module _ ⦃json : Eq Json⦄ where
    -- A write that succeeds keeps the keys of the version rows apart, and the windows of the active
    -- versions of each policy.
    pub perform-AreSeparate :
        (c : Command Json) (store : PolicyStore Json) {r : PolicyVersionRecord Json}
        {after : PolicyStore Json}
        → AreSeparate store.versions
        → perform c store ≡ ok (r, after)
        → AreSeparate after.versions
    unfolding policy_writes
    perform-AreSeparate (Command.put r) store a h = ground (arith, new_separate r store.versions)
    perform-AreSeparate (Command.draft r) store a h = ground (arith, new_separate r store.versions)
    perform-AreSeparate (Command.status policy_id version s) store a h =
        elim (Option-cases (get_version policy_id version store.versions)) [
          | inr (f, e) ↦ ground (arith, e, write_status-AreSeparate policy_id version s store a e)
          | inl e ↦ ground (arith, e)
        ]
    perform-AreSeparate (Command.activation id now policy_id version actor reason) store a h =
        elim (Option-cases (get_version policy_id version store.versions)) [
          | inr (f, e) ↦ ground (
            arith,
            e,
            write_status-AreSeparate policy_id version PolicyVersionStatus.active store a e,
          )
          | inl e ↦ ground (arith, e)
        ]
    perform-AreSeparate (Command.retirement id now policy_id version actor reason) store a h =
        elim (Option-cases (get_version policy_id version store.versions)) [
          | inr (f, e) ↦ ground (
            arith,
            e,
            write_status-AreSeparate policy_id version PolicyVersionStatus.retired store a e,
          )
          | inl e ↦ ground (arith, e)
        ]

    settled-AreSeparate :
        (c : Command Json) (store : PolicyStore Json) (o : Stored Json)
        → perform c store ≡ o
        → AreSeparate store.versions
        → AreSeparate (settled store o).versions
    settled-AreSeparate c store (err e) p a = a
    settled-AreSeparate c store (ok (r, after)) p a = perform-AreSeparate c store a p

    -- From a store whose rows are apart, for instance an empty one, every sequence of writes, the
    -- refused ones rolled back, leads to such a store.
    pub perform_all-AreSeparate :
        (cs : List (Command Json)) (store : PolicyStore Json)
        → AreSeparate store.versions
        → AreSeparate (perform_all cs store).versions
    unfolding perform_all
    perform_all-AreSeparate [] store a = a
    perform_all-AreSeparate (c ∷ cs) store a =
        perform_all-AreSeparate cs (settled store (perform c store))
          (settled-AreSeparate c store (perform c store) refl a)
