-- ===== src/PolicyPlane/Listing.antt =====
-- Filter and sort of `PolicyRepository.list_versions` (policy_plane.py).
use administrative_orchestra.Base.{
  Any, Bool, List, Pairwise-keep, Pairwise-sort_by, Text, keep, sort_by, true, ◌∙◌, ◌≡◌,
}
use administrative_orchestra.PolicyPlane.Separation.{AreSeparate, separate, separate_comm}
use administrative_orchestra.PolicyPlane.Store.{comes_before}
use administrative_orchestra.PolicyPlane.Versions.{PolicyVersionRecord}

module _ {Json : Type 0} where
  abbrev pub IsRow : PolicyVersionRecord Json → List (PolicyVersionRecord Json) → Type 0
  IsRow r = Any (λ s. s ≡ r)

  pub sort_by-AreSeparate :
      (collate : Text → Text → Bool) (rows : List (PolicyVersionRecord Json))
      → AreSeparate rows
      → AreSeparate (sort_by (comes_before collate) rows)
  sort_by-AreSeparate collate =
      Pairwise-sort_by (comes_before collate) (λ r s. separate r s ≡ true)
        (λ r s h. separate_comm s r ∙ h)

  pub keep-AreSeparate :
      (p : PolicyVersionRecord Json → Bool) (rows : List (PolicyVersionRecord Json))
      → AreSeparate rows
      → AreSeparate (keep p rows)
  keep-AreSeparate = Pairwise-keep (λ r s. separate r s ≡ true)
