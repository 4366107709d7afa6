-- ===== src/Base/Members.antt =====
-- Elements of filtered lists.
use mathlib.Core.Path.{◌≡◌, refl, subst, sym}
use mathlib.Core.Logic.{inl, inr, ◌↔◌}
use mathlib.Core.Bool.{Bool, true}
use mathlib.Core.List.{List, [], ◌∷◌}
use administrative_orchestra.Base.Tests.{Bool-cases}
use administrative_orchestra.Base.Lists.{Any, any, here, keep, there}

pub keep_mem {ℓ} :
    {A : Type ℓ} (p : A → Bool) (d : A) (xs : List A)
    → Any (λ x. x ≡ d) (keep p xs)
    → Any (λ x. x ≡ d) xs × (p d ≡ true)
keep_mem p d [] m = elim m [ ]
keep_mem p d (x ∷ xs) m = elim (Bool-cases (p x)) [
  | inl kept ↦ first kept (rw kept at m) (keep_mem p d xs)
  | inr dropped ↦ let (n, t) = keep_mem p d xs (rw dropped at m) in (there n, t)
]
  where
    first :
        p x ≡ true
        → Any (λ y. y ≡ d) (x ∷ keep p xs)
        → (Any (λ y. y ≡ d) (keep p xs) → Any (λ y. y ≡ d) xs × (p d ≡ true))
        → Any (λ y. y ≡ d) (x ∷ xs) × (p d ≡ true)
    first kept (here e) ih = (here e, subst (λ y. p y ≡ true) e kept)
    first kept (there n) ih = let (k, t) = ih n in (there k, t)

pub keep_intro {ℓ} :
    {A : Type ℓ} (p : A → Bool) (d : A) (xs : List A)
    → p d ≡ true
    → Any (λ x. x ≡ d) xs
    → Any (λ x. x ≡ d) (keep p xs)
keep_intro p d (x ∷ xs) h (here e) =
    let kept : p x ≡ true = subst (λ y. p y ≡ true) (sym e) h in rw kept (here e)
keep_intro p d (x ∷ xs) h (there m) = elim (Bool-cases (p x)) [
  | inl kept ↦ rw kept (there (keep_intro p d xs h m))
  | inr dropped ↦ rw dropped (keep_intro p d xs h m)
]
keep_intro p d [] h m = elim m [ ]

pub any_witness {ℓ} :
    {A : Type ℓ} (p : A → Bool) (xs : List A)
    → any p xs ≡ true
    → (a : A) × Any (λ x. x ≡ a) xs × (p a ≡ true)
any_witness p [] h = cc
any_witness p (x ∷ xs) h = elim (Bool-cases (p x)) [
  | inl holds ↦ (x, here refl, holds)
  | inr fails ↦ let (a, m, q) = any_witness p xs (rw fails at h) in (a, there m, q)
]

pub any_intro {ℓ} :
    {A : Type ℓ} (p : A → Bool) (a : A) (xs : List A)
    → Any (λ x. x ≡ a) xs
    → p a ≡ true
    → any p xs ≡ true
any_intro p a [] m q = elim m [ ]
any_intro p a (x ∷ xs) (here e) q =
    let holds : p x ≡ true = subst (λ y. p y ≡ true) (sym e) q in rw holds refl
any_intro p a (x ∷ xs) (there m) q = elim (Bool-cases (p x)) [
  | inl holds ↦ rw holds refl
  | inr fails ↦ rw fails (any_intro p a xs m q)
]

pub any_iff {ℓ κ} :
    {A : Type ℓ} (p : A → Bool) (P : A → Type κ)
    → ((x : A) → (p x ≡ true) ↔ P x)
    → (xs : List A) → (any p xs ≡ true) ↔ Any P xs
any_iff p P f [] = (λ h. cc, λ m. elim m [ ])
any_iff p P f (x ∷ xs) = (
  λ h. elim (Bool-cases (p x)) [
    | inl holds ↦ here ((f x).0 holds)
    | inr fails ↦ there ((any_iff p P f xs).0 (rw fails at h))
  ],
  λ m. elim m [
    | here q ↦ rw ((f x).1 q) refl
    | there n ↦ elim (Bool-cases (p x)) [
      | inl holds ↦ rw holds refl
      | inr fails ↦ rw fails ((any_iff p P f xs).1 n)
    ]
  ],
)
