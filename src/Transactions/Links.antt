-- ===== src/Transactions/Links.antt =====
-- A row added to the rows of transaction_repository.py, and lookups in them.
use administrative_orchestra.Base.{
  All, All-both, All-mp, Bool, Bool-cases, List, Option-cases, Pairwise, Pairwise-mp, Uuid, [], any,
  any_none, arith, false, find, inl, inr, list_eq, nat_eq, none, option_eq, refl, some, string_eq,
  subst, true, ◌==◌, ◌∷◌, ◌≡◌,
}
use administrative_orchestra.Transactions.Chains.{
  Assessment, Chained, clash, group_sym, is_grounded, keeps_group,
}
use administrative_orchestra.Transactions.Store.{get_assessment, same_group}

-- What is known of a row that is added.
pub record Fits (a : Assessment) (rows : List Assessment) : Type 0 where
  pub fresh : All (λ r. (r.assessment_id == a.assessment_id) ≡ false) rows
  pub target_stored : is_grounded rows a ≡ true
  pub target_grouped : All (λ r. keeps_group a r ≡ true) rows
  pub leaves_one : All (λ r. clash (a ∷ rows) a r ≡ false) rows

-- A row whose target is stored does not supersede a row with a new id.
pub keeps_group_new :
    (a s : Assessment) (rows : List Assessment)
    → All (λ r. (r.assessment_id == a.assessment_id) ≡ false) rows
    → is_grounded rows s ≡ true
    → keeps_group s a ≡ true
keeps_group_new a s rows f g = elim (Option-cases s.supersedes_assessment_id) [
  | inl nothing ↦ rw nothing refl
  | inr (id, something) ↦ elim (Bool-cases (id == a.assessment_id)) [
    | inl same ↦
        let e : id ≡ a.assessment_id = ground arith in
        let stored : any (λ r. r.assessment_id == id) rows ≡ true = ground (arith, something, g) in
        let is_new = any_none (λ r. r.assessment_id == a.assessment_id) rows f in
        let not_new = subst (λ i. any (λ r. r.assessment_id == i) rows ≡ true) e stored in cc
    | inr other ↦ rw something (ground arith)
  ]
]

-- A further row leaves fewer rows current.
pub clash_later :
    (a : Assessment) (rows : List Assessment) (r s : Assessment)
    → clash rows r s ≡ false
    → clash (a ∷ rows) r s ≡ false
clash_later a rows r s h = ground arith

pub grounded_later :
    (a : Assessment) (rows : List Assessment) (s : Assessment)
    → is_grounded rows s ≡ true
    → is_grounded (a ∷ rows) s ≡ true
grounded_later a rows s h = elim (Option-cases s.supersedes_assessment_id) [
  | inl nothing ↦ rw nothing refl
  | inr (id, something) ↦ ground (arith, something, h)
]

pub Chained-add :
    (a : Assessment) (rows : List Assessment) → Chained rows → Fits a rows → Chained (a ∷ rows)
Chained-add a rows c f = record {
  distinct = (All-mp _ _ rows (λ r n. ground (arith, n)) f.fresh, c.distinct);
  grounded =
      (grounded_later a rows a f.target_stored, All-mp _ _ rows (grounded_later a rows) c.grounded);
  grouped = (
    (keeps_group_new a a rows f.fresh f.target_stored, f.target_grouped),
    All-both (λ s. is_grounded rows s ≡ true) (λ s. All (λ r. keeps_group s r ≡ true) rows) _ rows
        (λ s g k. (keeps_group_new a s rows f.fresh g, k)) c.grounded c.grouped,
  );
  apart = (f.leaves_one, Pairwise-mp _ _ rows (clash_later a rows) c.apart);
}

pub not_stored :
    (id : Uuid) (rows : List Assessment)
    → get_assessment id rows ≡ none
    → All (λ r. (r.assessment_id == id) ≡ false) rows
not_stored id [] h = tt
not_stored id (r ∷ rows) h = elim (Bool-cases (r.assessment_id == id)) [
  | inl same ↦ ground arith
  | inr other ↦ (other, not_stored id rows (ground arith))
]

-- The stored row with an id is the only one with it.
pub only_one :
    (id : Uuid) (t : Assessment) (rows : List Assessment)
    → Pairwise (λ r s. (r.assessment_id == s.assessment_id) ≡ false) rows
    → get_assessment id rows ≡ some t
    → All (λ r. (r.assessment_id == id) ≡ true → r ≡ t) rows
only_one id t [] d h = tt
only_one id t (r ∷ rows) d h = elim (Bool-cases (r.assessment_id == id)) [
  | inl same ↦
      let e : r ≡ t = ground (arith, same, h) in
      (λ _. e, All-mp _ _ rows (λ x differs is_it. ground (arith, same, differs, is_it)) d.0)
  | inr other ↦ (λ is_it. ground arith, only_one id t rows d.1 (ground arith))
]

pub clash_sym :
    (all : List Assessment) (r s : Assessment) → clash all r s ≡ false → clash all s r ≡ false
clash_sym all r s h = elim (Bool-cases (same_group s r)) [
  | inl same ↦ ground (arith, group_sym s r same, h)
  | inr other ↦ rw other refl
]

pub All-found {ℓ κ} :
    {A : Type ℓ} (P : A → Type κ) (p : A → Bool) (t : A) (rows : List A)
    → All P rows
    → find p rows ≡ some t
    → P t
All-found P p t [] h e = cc
All-found P p t (r ∷ rows) h e = elim (Bool-cases (p r)) [
  | inl it ↦ let same : r ≡ t = ground (arith, it, e) in subst P same h.0
  | inr other ↦ All-found P p t rows h.1 (ground (arith, other, e))
]

-- A current row and another of its group are not both current.
pub parted :
    (all : List Assessment) (id : Uuid) (t : Assessment) (rows : List Assessment)
    → Pairwise (λ r s. clash all r s ≡ false) rows
    → get_assessment id rows ≡ some t
    → All (λ r. (r.assessment_id == id) ≡ false → clash all t r ≡ false) rows
parted all id t [] p h = tt
parted all id t (r ∷ rows) p h = elim (Bool-cases (r.assessment_id == id)) [
  | inl same ↦
      let e : r ≡ t = ground (arith, same, h) in
      (λ differs. cc, All-mp _ _ rows (λ x apart _. subst (λ u. clash all u x ≡ false) e apart) p.0)
  | inr other ↦
      let later : get_assessment id rows ≡ some t = ground arith in
      (
        λ _. clash_sym all r t (All-found _ (λ x. x.assessment_id == id) t rows p.0 later),
        parted all id t rows p.1 later,
      )
]

pub stored_is :
    (id : Uuid) (t : Assessment) (rows : List Assessment)
    → get_assessment id rows ≡ some t
    → (any (λ r. r.assessment_id == id) rows ≡ true) × (t.assessment_id ≡ id)
stored_is id t [] h = cc
stored_is id t (r ∷ rows) h = elim (Bool-cases (r.assessment_id == id)) [
  | inl same ↦ ground arith
  | inr other ↦ ground (arith, stored_is id t rows)
]
