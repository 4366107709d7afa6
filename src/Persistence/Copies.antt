-- ===== src/Persistence/Copies.antt =====
-- What is found after `_copy_case_into_row` of persistence.py.
use administrative_orchestra.Base.{
  Bool-cases, List, Uuid, [], ap, arith, false, inl, inr, list_eq, nat_eq, option_eq, refl, some,
  string_eq, ◌==◌, ◌∷◌, ◌≡◌,
}
use administrative_orchestra.Domain.{AdministrativeCase}
use administrative_orchestra.Persistence.Cases.{copied, copy_case_into_row, find_case}

pub find-copy :
    (case_id : Uuid) (c row : AdministrativeCase) (rows : List AdministrativeCase)
    → find_case case_id rows ≡ some row
    → find_case case_id (copy_case_into_row case_id c rows) ≡ some (copied c row)
unfolding copy_case_into_row
find-copy case_id c row [] h = cc
find-copy case_id c row (r ∷ rows) h = elim (Bool-cases (r.case_id == case_id)) [
  | inl it ↦
      let same : r ≡ row = ground (arith, it, h) in rw (it, it) (ap (λ x. some (copied c x)) same)
  | inr other ↦ rw (other, other) (find-copy case_id c row rows (rw other at h))
]

pub find-copy_other :
    (case_id other : Uuid) (c : AdministrativeCase) (rows : List AdministrativeCase)
    → (other == case_id) ≡ false
    → find_case case_id (copy_case_into_row other c rows) ≡ find_case case_id rows
unfolding copy_case_into_row
find-copy_other case_id other c [] h = refl
find-copy_other case_id other c (r ∷ rows) h = elim (Bool-cases (r.case_id == other)) [
  | inl it ↦
      let differs : (r.case_id == case_id) ≡ false = ground (arith, it, h) in
      rw (it, differs) (find-copy_other case_id other c rows h)
  | inr stays ↦ elim (Bool-cases (r.case_id == case_id)) [
    | inl here_it ↦ rw (stays, here_it) refl
    | inr differs ↦ rw (stays, differs) (find-copy_other case_id other c rows h)
  ]
]
