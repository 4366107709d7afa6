-- ===== src/Transactions/Chains.antt =====
-- The chains of assessments that supersede one another in the rows of transaction_repository.py.
use administrative_orchestra.Base.{
  All, Bool, List, Pairwise, any, arith, false, list_eq, nat_eq, none, not, option_eq, some,
  str_beq_iff, string_eq, sym, true, ◌&&◌, ◌==◌, ◌||◌, ◌∙◌, ◌≡◌,
}
use administrative_orchestra.Transactions.Records.{TransactionQualificationAssessment}
use administrative_orchestra.Transactions.Store.{is_superseded, same_group}

abbrev pub Assessment : Type 0
Assessment = TransactionQualificationAssessment

-- No row supersedes `r`.
abbrev pub is_current : List Assessment → Assessment → Bool
is_current rows r = not (is_superseded rows r.assessment_id)

-- What `s` supersedes, if it supersedes `r`, is of its own group.
abbrev pub keeps_group : Assessment → Assessment → Bool
keeps_group s r = not (s.supersedes_assessment_id == some r.assessment_id) || same_group s r

-- The row that `s` supersedes exists: the foreign key.
abbrev pub is_grounded : List Assessment → Assessment → Bool
is_grounded rows s = elim s.supersedes_assessment_id [
  | none ↦ true
  | some target ↦ any (λ r. r.assessment_id == target) rows
]

-- Two current rows of one group.
abbrev pub clash : List Assessment → Assessment → Assessment → Bool
clash rows r s = same_group r s && (is_current rows r && is_current rows s)

-- Ids differ, supersession stays in its group and names rows that exist, and each group has one
-- current row at most.
pub record Chained (rows : List Assessment) : Type 0 where
  pub distinct : Pairwise (λ r s. (r.assessment_id == s.assessment_id) ≡ false) rows
  pub grounded : All (λ s. is_grounded rows s ≡ true) rows
  pub grouped : All (λ s. All (λ r. keeps_group s r ≡ true) rows) rows
  pub apart : Pairwise (λ r s. clash rows r s ≡ false) rows

pub group_parts :
    (a b : Assessment)
    → same_group a b ≡ true
    → (a.case_id ≡ b.case_id)
      × ((a.authority_epoch ≡ b.authority_epoch) × (a.assessment_kind ≡ b.assessment_kind))
group_parts a b h = ground (arith, str_beq_iff a.assessment_kind b.assessment_kind)

pub group_from :
    (a b : Assessment)
    → a.case_id ≡ b.case_id
    → a.authority_epoch ≡ b.authority_epoch
    → a.assessment_kind ≡ b.assessment_kind
    → same_group a b ≡ true
group_from a b c e k = ground (arith, str_beq_iff a.assessment_kind b.assessment_kind)

pub group_sym : (a b : Assessment) → same_group a b ≡ true → same_group b a ≡ true
group_sym a b h = let (c, (e, k)) = group_parts a b h in group_from b a (sym c) (sym e) (sym k)

pub group_trans :
    (a b c : Assessment) → same_group a b ≡ true → same_group b c ≡ true → same_group a c ≡ true
group_trans a b c h k =
    let (c₁, (e₁, k₁)) = group_parts a b h in
    let (c₂, (e₂, k₂)) = group_parts b c k in group_from a c (c₁ ∙ c₂) (e₁ ∙ e₂) (k₁ ∙ k₂)
