-- ===== src/PolicyPlane/Resolution.antt =====
-- `PolicyRepository.resolve_current` (policy_plane.py) against the stored versions.
use administrative_orchestra.Base.{
  Any-sort_by, Bool, List, Text, Timestamp, [], ap, arith, false, here, keep, keep_intro, keep_mem,
  nat_eq, ok, option_eq, refl, sort_by, str_beq_iff, string_eq, sym, there, true, ◌==◌, ◌↔◌, ◌∙◌,
  ◌∷◌, ◌≡◌,
}
use administrative_orchestra.PolicyPlane.Listing.{IsRow, keep-AreSeparate, sort_by-AreSeparate}
use administrative_orchestra.PolicyPlane.Separation.{AreSeparate, separate}
use administrative_orchestra.PolicyPlane.Store.{
  PolicyStore, comes_before, list_versions, only_version, resolve_current,
}
use administrative_orchestra.PolicyPlane.Versions.{
  PolicyVersionRecord, is_effective_at, windows_overlap,
}

module _ {Json : Type 0} where
  pub both_current :
      (r s : PolicyVersionRecord Json) (at : Timestamp)
      → r.policy_id ≡ s.policy_id
      → is_effective_at r at ≡ true
      → is_effective_at s at ≡ true
      → separate r s ≡ false
  unfolding windows_overlap
  both_current r s at p h k = ground (arith, str_beq_iff r.policy_id s.policy_id)

  only_row :
      (policy_id : Text) (at : Timestamp) (collate : Text → Text → Bool)
      (r : PolicyVersionRecord Json) (rows : List (PolicyVersionRecord Json))
      → AreSeparate rows
      → ((s : PolicyVersionRecord Json)
          → IsRow s rows
          → (s.policy_id ≡ policy_id) × (is_effective_at s at ≡ true))
      → IsRow r rows
      → only_version collate rows ≡ ok r
  only_row policy_id at collate r [] a h m = elim m [ ]
  only_row policy_id at collate r (s ∷ []) a h (here e) = ap ok e
  only_row policy_id at collate r (s ∷ []) a h (there m) = elim m [ ]
  only_row policy_id at collate r (s ∷ t ∷ rows) a h m =
      let (p, k) = h s (here refl) in
      let (q, l) = h t (there (here refl)) in ground (arith, both_current s t at (p ∙ sym q) k l)

  module _ (collate : Text → Text → Bool) (policy_id : Text) (at : Timestamp)
      (store : PolicyStore Json) where
    abbrev of_policy : List (PolicyVersionRecord Json)
    of_policy = keep (λ s. s.policy_id == policy_id) store.versions

    abbrev current_rows : List (PolicyVersionRecord Json)
    current_rows = keep (λ s. is_effective_at s at) (sort_by (comes_before collate) of_policy)

    IsRow-current :
        (s : PolicyVersionRecord Json)
        → IsRow s current_rows
        → IsRow s store.versions × (s.policy_id ≡ policy_id) × (is_effective_at s at ≡ true)
    IsRow-current s m =
        let (n, effective) =
          keep_mem (λ s. is_effective_at s at) s (sort_by (comes_before collate) of_policy) m in
        let (k, q) =
          keep_mem (λ s. s.policy_id == policy_id) s store.versions
            ((Any-sort_by (comes_before collate) (λ r. r ≡ s) of_policy).1 n) in
        (k, (str_beq_iff s.policy_id policy_id).0 q, effective)

    current-IsRow :
        (s : PolicyVersionRecord Json)
        → IsRow s store.versions
        → s.policy_id ≡ policy_id
        → is_effective_at s at ≡ true
        → IsRow s current_rows
    current-IsRow s m q effective =
        keep_intro (λ s. is_effective_at s at) s (sort_by (comes_before collate) of_policy)
          effective
          ((Any-sort_by (comes_before collate) (λ r. r ≡ s) of_policy).0 (
            keep_intro (λ s. s.policy_id == policy_id) s store.versions
              ((str_beq_iff s.policy_id policy_id).1 q) m))

    resolved-IsRow :
        (r : PolicyVersionRecord Json) (rows : List (PolicyVersionRecord Json))
        → only_version collate rows ≡ ok r
        → IsRow r rows
    resolved-IsRow r [] h = ground arith
    resolved-IsRow r (s ∷ []) h = here (ground arith)
    resolved-IsRow r (s ∷ t ∷ rows) h = ground arith

    -- Over rows that are apart, and for every order of texts in the database, `resolve_current`
    -- returns a version exactly if it is a stored version of the policy, active and in its
    -- window.
    pub resolve_current_lem :
        (r : PolicyVersionRecord Json)
        → AreSeparate store.versions
        → (resolve_current collate policy_id at store ≡ ok r)
          ↔ (IsRow r store.versions × (r.policy_id ≡ policy_id) × (is_effective_at r at ≡ true))
    unfolding resolve_current list_versions
    resolve_current_lem r a = (
      λ h. IsRow-current r (resolved-IsRow r current_rows h),
      λ (m, q, effective).
          only_row policy_id at collate r current_rows
            (keep-AreSeparate (λ s. is_effective_at s at) (sort_by (comes_before collate) of_policy)
              (sort_by-AreSeparate collate of_policy
                (keep-AreSeparate (λ s. s.policy_id == policy_id) store.versions a)))
            (λ s n. let (k, q, e) = IsRow-current s n in (q, e)) (current-IsRow r m q effective),
    )
