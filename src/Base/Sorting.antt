-- ===== src/Base/Sorting.antt =====
-- Python's `sorted`, as a stable insertion sort by a test, and what it keeps.
use Prim.Native.Nat.{ℕ, zero, suc, ◌≤◌}
use mathlib.Core.Path.{◌≡◌, ap, refl}
use mathlib.Core.Logic.{◌↔◌, inl, inr}
use mathlib.Core.Bool.{Bool}
use mathlib.Core.List.{List, [], ◌∷◌}
use native.Mathlib.Omega.{arith}
use administrative_orchestra.Base.Tests.{Bool-cases, if◌then◌else◌}
use administrative_orchestra.Base.Lists.{All, Any, here, keep, length, take, there}

module _ {ℓ} {A : Type ℓ} where
  -- `before x y`: `x` may stand before `y`.
  abbrev pub insert_by : (A → A → Bool) → A → List A → List A
  insert_by before x [] = x ∷ []
  insert_by before x (y ∷ ys) = if before x y then x ∷ y ∷ ys else y ∷ insert_by before x ys

  abbrev pub sort_by : (A → A → Bool) → List A → List A
  sort_by before [] = []
  sort_by before (x ∷ xs) = insert_by before x (sort_by before xs)

  -- Each element is related to all behind it.
  abbrev pub Pairwise {κ} : (A → A → Type κ) → List A → Type κ
  Pairwise R [] = Unit
  Pairwise R (x ∷ xs) = All (R x) xs × Pairwise R xs

  module _ (before : A → A → Bool) where
    length-insert_by : (x : A) (xs : List A) → length (insert_by before x xs) ≡ suc (length xs)
    length-insert_by x [] = refl
    length-insert_by x (y ∷ ys) = ground (arith, length-insert_by x ys)

    pub length-sort_by : (xs : List A) → length (sort_by before xs) ≡ length xs
    length-sort_by [] = refl
    length-sort_by (x ∷ xs) =
        ground (arith, length-insert_by x (sort_by before xs), length-sort_by xs)

    module _ {κ} (P : A → Type κ) where
      All-insert_by : (x : A) (xs : List A) → P x → All P xs → All P (insert_by before x xs)
      All-insert_by x [] p h = (p, tt)
      All-insert_by x (y ∷ ys) p h = elim (Bool-cases (before x y)) [
        | inl first ↦ rw first (p, h)
        | inr later ↦ rw later (h.0, All-insert_by x ys p h.1)
      ]

      pub All-sort_by : (xs : List A) → All P xs → All P (sort_by before xs)
      All-sort_by [] h = tt
      All-sort_by (x ∷ xs) h = All-insert_by x (sort_by before xs) h.0 (All-sort_by xs h.1)

      Any-insert_by : (x : A) (xs : List A) → Any P (x ∷ xs) ↔ Any P (insert_by before x xs)
      Any-insert_by x [] = (λ m. m, λ m. m)
      Any-insert_by x (y ∷ ys) = elim (Bool-cases (before x y)) [
        | inl first ↦ rw first (λ m. m, λ m. m)
        | inr later ↦
            let (into, back) = Any-insert_by x ys in
            rw later (pass into, λ m. unpass (back_from back m))
      ]
        where
          pass :
              (Any P (x ∷ ys) → Any P (insert_by before x ys))
              → Any P (x ∷ y ∷ ys)
              → Any P (y ∷ insert_by before x ys)
          pass into (here p) = there (into (here p))
          pass into (there (here p)) = here p
          pass into (there (there m)) = there (into (there m))

          back_from :
              (Any P (insert_by before x ys) → Any P (x ∷ ys))
              → Any P (y ∷ insert_by before x ys)
              → Any P (y ∷ x ∷ ys)
          back_from back (here p) = here p
          back_from back (there m) = there (back m)

          unpass : Any P (y ∷ x ∷ ys) → Any P (x ∷ y ∷ ys)
          unpass (here p) = there (here p)
          unpass (there (here p)) = here p
          unpass (there (there m)) = there (there m)

      pub Any-sort_by : (xs : List A) → Any P xs ↔ Any P (sort_by before xs)
      Any-sort_by [] = (λ m. m, λ m. m)
      Any-sort_by (x ∷ xs) =
          let (into, back) = Any-sort_by xs in
          let (in_place, out) = Any-insert_by x (sort_by before xs) in
          (λ m. in_place (under into m), λ m. under back (out m))
        where
          under : {ys zs : List A} → (Any P ys → Any P zs) → Any P (x ∷ ys) → Any P (x ∷ zs)
          under f (here p) = here p
          under f (there m) = there (f m)

    module _ {κ} (R : A → A → Type κ) (flip : (x y : A) → R x y → R y x) where
      Pairwise-insert_by :
          (x : A) (xs : List A) → All (R x) xs → Pairwise R xs → Pairwise R (insert_by before x xs)
      Pairwise-insert_by x [] h p = (tt, tt)
      Pairwise-insert_by x (y ∷ ys) h p = elim (Bool-cases (before x y)) [
        | inl first ↦ rw first (h, p)
        | inr later ↦
            rw later (All-insert_by (R y) x ys (flip x y h.0) p.0, Pairwise-insert_by x ys h.1 p.1)
      ]

      pub Pairwise-sort_by : (xs : List A) → Pairwise R xs → Pairwise R (sort_by before xs)
      Pairwise-sort_by [] p = tt
      Pairwise-sort_by (x ∷ xs) p =
          Pairwise-insert_by x (sort_by before xs) (All-sort_by (R x) xs p.0)
            (Pairwise-sort_by xs p.1)

  pub All-keep {κ} : (P : A → Type κ) (p : A → Bool) (xs : List A) → All P xs → All P (keep p xs)
  All-keep P p [] h = tt
  All-keep P p (x ∷ xs) h = elim (Bool-cases (p x)) [
    | inl kept ↦ rw kept (h.0, All-keep P p xs h.1)
    | inr dropped ↦ rw dropped (All-keep P p xs h.1)
  ]

  pub Pairwise-keep {κ} :
      (R : A → A → Type κ) (p : A → Bool) (xs : List A) → Pairwise R xs → Pairwise R (keep p xs)
  Pairwise-keep R p [] h = tt
  Pairwise-keep R p (x ∷ xs) h = elim (Bool-cases (p x)) [
    | inl kept ↦ rw kept (All-keep (R x) p xs h.0, Pairwise-keep R p xs h.1)
    | inr dropped ↦ rw dropped (Pairwise-keep R p xs h.1)
  ]

  pub length-keep-le : (p : A → Bool) (xs : List A) → length (keep p xs) ≤ length xs
  length-keep-le p [] = omega arith
  length-keep-le p (x ∷ xs) = ground (arith, length-keep-le p xs)

  pub All-take {κ} : (P : A → Type κ) (n : ℕ) (xs : List A) → All P xs → All P (take n xs)
  All-take P zero xs h = tt
  All-take P (suc n) [] h = tt
  All-take P (suc n) (x ∷ xs) h = (h.0, All-take P n xs h.1)

  pub take_all : (n : ℕ) (xs : List A) → length xs ≤ n → take n xs ≡ xs
  take_all zero [] h = refl
  take_all zero (x ∷ xs) h = absurd (omega arith)
  take_all (suc n) [] h = refl
  take_all (suc n) (x ∷ xs) h = ap (λ ys. x ∷ ys) (take_all n xs (omega arith))
