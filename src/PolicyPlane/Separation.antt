-- ===== src/PolicyPlane/Separation.antt =====
-- When version rows (policy_plane.py) are apart: in their keys, and in the windows of the active
-- versions of one policy.
use administrative_orchestra.Base.{
  All, Bool, Bool-cases, List, Pairwise, Text, [], any, arith, false, inl, inr, map, nat_eq, none,
  not, option_eq, some, str_beq_iff, string_eq, true, ◌&&◌, ◌==◌, ◌∷◌, ◌≡◌,
}
use administrative_orchestra.Domain.{status_eq}
use administrative_orchestra.PolicyPlane.Store.{conflicts, get_version, has_key, with_status}
use administrative_orchestra.PolicyPlane.Versions.{
  PolicyVersionRecord, PolicyVersionStatus, version_status_eq, windows_overlap,
}

module _ {Json : Type 0} where
  abbrev pub overlapping : PolicyVersionRecord Json → PolicyVersionRecord Json → Bool
  overlapping r s =
      windows_overlap r.effective_from r.effective_until s.effective_from s.effective_until

  -- Two rows differ in their key, and are not active versions of one policy with a common instant.
  abbrev pub separate : PolicyVersionRecord Json → PolicyVersionRecord Json → Bool
  separate r s =
      not (has_key r.policy_id r.version s)
      && not (
          (r.policy_id == s.policy_id)
          && (((r.status == PolicyVersionStatus.active) && (s.status == PolicyVersionStatus.active))
              && overlapping r s))

  abbrev pub SeparateFrom : PolicyVersionRecord Json → List (PolicyVersionRecord Json) → Type 0
  SeparateFrom r = All (λ s. separate r s ≡ true)

  abbrev pub AreSeparate : List (PolicyVersionRecord Json) → Type 0
  AreSeparate = Pairwise (λ r s. separate r s ≡ true)

  overlapping_comm : (r s : PolicyVersionRecord Json) → overlapping r s ≡ overlapping s r
  unfolding windows_overlap
  overlapping_comm r s = ground arith

  pub separate_comm : (r s : PolicyVersionRecord Json) → separate r s ≡ separate s r
  separate_comm r s = ground (
    arith,
    overlapping_comm r s,
    str_beq_iff r.policy_id s.policy_id,
    str_beq_iff s.policy_id r.policy_id,
    str_beq_iff r.version s.version,
    str_beq_iff s.version r.version,
  )

  -- A new row that `assert_no_active_overlap` lets pass.
  pub new_separate :
      (r : PolicyVersionRecord Json) (rows : List (PolicyVersionRecord Json))
      → get_version r.policy_id r.version rows ≡ none
      → ((r.status == PolicyVersionStatus.active) && any (conflicts r none) rows) ≡ false
      → SeparateFrom r rows
  new_separate r [] h n = tt
  new_separate r (s ∷ rows) h n = (
    ground (
      arith,
      str_beq_iff r.policy_id s.policy_id,
      str_beq_iff s.policy_id r.policy_id,
      str_beq_iff r.version s.version,
      str_beq_iff s.version r.version,
    ),
    new_separate r rows (ground arith) (ground arith),
  )

  module _ (policy_id version : Text) (status : PolicyVersionStatus) where
    -- What a status write to the row `f` needs of another row `r`.
    abbrev Fits : PolicyVersionRecord Json → PolicyVersionRecord Json → Type 0
    Fits f r =
        (has_key policy_id version r ≡ true → r ≡ f)
        × (((status == PolicyVersionStatus.active)
              && conflicts (record f { status = status }) (some version) r)
            ≡ false)

    module _ (f : PolicyVersionRecord Json) where
      write_pair :
          (r s : PolicyVersionRecord Json)
          → has_key policy_id version f ≡ true
          → Fits f r
          → Fits f s
          → separate r s ≡ true
          → separate
              (with_status policy_id version status r)
              (with_status policy_id version status s)
            ≡ true
      write_pair r s k a b h = ground (
        arith,
        overlapping_comm r s,
        str_beq_iff r.policy_id s.policy_id,
        str_beq_iff s.policy_id r.policy_id,
        str_beq_iff r.version s.version,
        str_beq_iff s.version r.version,
        str_beq_iff r.policy_id policy_id,
        str_beq_iff s.policy_id policy_id,
        str_beq_iff r.version version,
        str_beq_iff s.version version,
      )

      write_from :
          (r : PolicyVersionRecord Json) (rows : List (PolicyVersionRecord Json))
          → has_key policy_id version f ≡ true
          → Fits f r
          → All (Fits f) rows
          → SeparateFrom r rows
          → SeparateFrom
              (with_status policy_id version status r)
              (map (with_status policy_id version status) rows)
      write_from r [] k a b h = tt
      write_from r (s ∷ rows) k a b h = (write_pair r s k a b.0 h.0, write_from r rows k a b.1 h.1)

      pub write_rows :
          (rows : List (PolicyVersionRecord Json))
          → has_key policy_id version f ≡ true
          → All (Fits f) rows
          → AreSeparate rows
          → AreSeparate (map (with_status policy_id version status) rows)
      write_rows [] k a h = tt
      write_rows (r ∷ rows) k a h = (write_from r rows k a.0 a.1 h.0, write_rows rows k a.1 h.1)

      -- The key stands in one row only.
      other-Fits :
          (r : PolicyVersionRecord Json) (rows : List (PolicyVersionRecord Json))
          → has_key policy_id version r ≡ true
          → SeparateFrom r rows
          → ((status == PolicyVersionStatus.active)
              && any (conflicts (record f { status = status }) (some version)) rows)
            ≡ false
          → All (Fits f) rows
      other-Fits r [] k h n = tt
      other-Fits r (s ∷ rows) k h n = (
        (
          λ q. ground (arith, str_beq_iff r.policy_id policy_id, str_beq_iff r.version version),
          ground arith,
        ),
        other-Fits r rows k h.1 (ground arith),
      )

      pub found-Fits :
          (rows : List (PolicyVersionRecord Json))
          → AreSeparate rows
          → get_version policy_id version rows ≡ some f
          → ((status == PolicyVersionStatus.active)
              && any (conflicts (record f { status = status }) (some version)) rows)
            ≡ false
          → All (Fits f) rows × (has_key policy_id version f ≡ true)
      found-Fits [] a h n = ground arith
      found-Fits (r ∷ rows) a h n = elim (Bool-cases (has_key policy_id version r)) [
        | inl same ↦ (
          ((λ q. ground arith, ground arith), other-Fits r rows same a.0 (ground arith)),
          ground arith,
        )
        | inr other ↦
            let (b, k) = found-Fits rows a.1 (ground arith) (ground arith) in
            (((λ q. ground arith, ground arith), b), k)
      ]
