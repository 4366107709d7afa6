-- ===== src/Transactions/Currency.antt =====
-- The current assessments of transaction_repository.py.
use administrative_orchestra.Base.{
  All, All-mp, All-swap, Bool, Bool-cases, List, Pairwise, Pairwise-keep, Pairwise-with, Text, Uuid,
  [], any-keep, any_cong_on, any_none, ap, arith, false, inl, inr, keep, keep-keep_on, keep_holds,
  length, list_eq, ltb, nat_eq, not, ok, option_eq, refl, some, str_beq_iff, string_eq, sym, true,
  ℕ, ◌&&◌, ◌==◌, ◌∙◌, ◌∷◌, ◌≡◌,
}
use administrative_orchestra.Transactions.Chains.{
  Assessment, Chained, group_from, group_parts, is_current, keeps_group,
}
use administrative_orchestra.Transactions.Store.{
  current_assessments, current_from_rows, in_epoch, is_superseded, same_group,
}

one_left :
    (kind : Text) (rows : List Assessment)
    → All (λ r. (r.assessment_kind == kind) ≡ true) rows
    → Pairwise (λ r s. (s.assessment_kind == r.assessment_kind) ≡ false) rows
    → ltb 1 (length rows) ≡ false
one_left kind [] k d = refl
one_left kind (r ∷ []) k d = refl
one_left kind (r ∷ s ∷ rows) k d = ground (
  arith,
  k.0,
  k.1.0,
  d.0.0,
  str_beq_iff r.assessment_kind kind,
  str_beq_iff s.assessment_kind kind,
  str_beq_iff s.assessment_kind r.assessment_kind,
)

at_most_one :
    (rows : List Assessment)
    → Pairwise (λ r s. (s.assessment_kind == r.assessment_kind) ≡ false) rows
    → (r : Assessment)
    → ltb 1 (length (keep (λ s. s.assessment_kind == r.assessment_kind) rows)) ≡ false
at_most_one rows d r =
    one_left r.assessment_kind (keep (λ s. s.assessment_kind == r.assessment_kind) rows)
      (keep_holds (λ s. s.assessment_kind == r.assessment_kind) rows)
      (Pairwise-keep _ (λ s. s.assessment_kind == r.assessment_kind) rows d)

-- The rows of the epoch that no row supersedes.
abbrev pub current_rows : Uuid → ℕ → List Assessment → List Assessment
current_rows case_id authority_epoch rows =
    keep (λ r. in_epoch case_id authority_epoch r && is_current rows r) rows

module _ (case_id : Uuid) (authority_epoch : ℕ) (rows : List Assessment) (c : Chained rows) where
  abbrev in_this : Assessment → Bool
  in_this = in_epoch case_id authority_epoch

  -- What supersedes a row of the epoch is a row of the epoch.
  superseded_inside :
      (r : Assessment)
      → All (λ s. keeps_group s r ≡ true) rows
      → in_this r ≡ true
      → is_superseded (keep in_this rows) r.assessment_id ≡ is_superseded rows r.assessment_id
  superseded_inside r g inside =
      any-keep (λ s. s.supersedes_assessment_id == some r.assessment_id) in_this rows
      ∙ any_cong_on _ _ rows (All-mp _ _ rows (λ s k. inside_too s k) g)
    where
      inside_too :
          (s : Assessment)
          → keeps_group s r ≡ true
          → (in_this s && (s.supersedes_assessment_id == some r.assessment_id))
            ≡ (s.supersedes_assessment_id == some r.assessment_id)
      inside_too s k = elim (Bool-cases (s.supersedes_assessment_id == some r.assessment_id)) [
        | inl next ↦
            let together : same_group s r ≡ true = ground (arith, next, k) in
            let (e, (f, _)) = group_parts s r together in rw next (ground (arith, e, f, inside))
        | inr other ↦ rw other (ground arith)
      ]

  current_rows-kept :
      keep (λ r. not (is_superseded (keep in_this rows) r.assessment_id)) (keep in_this rows)
      ≡ (current_rows case_id authority_epoch rows)
  current_rows-kept = keep-keep_on _ in_this (is_current rows) rows (
      All-mp _ _ rows (λ r g inside. ap not (superseded_inside r g inside))
        (All-swap (λ s r. keeps_group s r ≡ true) rows rows c.grouped))

  kinds_differ :
      Pairwise
        (λ r s. (s.assessment_kind == r.assessment_kind) ≡ false)
        (current_rows case_id authority_epoch rows)
  kinds_differ =
      Pairwise-with (λ r. (in_this r && is_current rows r) ≡ true) _ _
        (current_rows case_id authority_epoch rows)
        (λ r s p q apart. elim (Bool-cases (s.assessment_kind == r.assessment_kind)) [
          | inr other ↦ other
          | inl same ↦
              let e =
                group_from r s (ground arith) (ground arith)
                  (sym ((str_beq_iff s.assessment_kind r.assessment_kind).0 same)) in
              ground (arith, e, apart, p, q)
        ])
        (keep_holds (λ r. in_this r && is_current rows r) rows)
        (Pairwise-keep _ (λ r. in_this r && is_current rows r) rows c.apart)

  -- Every row of the epoch that no row supersedes is listed, and the list is never refused.
  pub current_assessments-Chained :
      current_assessments case_id authority_epoch rows
      ≡ ok (current_rows case_id authority_epoch rows)
  unfolding current_assessments current_from_rows
  current_assessments-Chained =
      let alone =
        any_none
          (λ r. ltb 1 (
            length (
              keep (λ s. s.assessment_kind == r.assessment_kind)
                (current_rows case_id authority_epoch rows))))
          (current_rows case_id authority_epoch rows)
          (All-mp _ _ (current_rows case_id authority_epoch rows)
            (λ r _. at_most_one (current_rows case_id authority_epoch rows) kinds_differ r)
            (keep_holds (λ r. in_this r && is_current rows r) rows)) in
      rw current_rows-kept (rw alone refl)
