-- ===== src/Base/Quantifiers.antt =====
-- Quantifiers over lists, and what filters keep of them.
use mathlib.Core.Path.{◌≡◌, refl}
use mathlib.Core.Logic.{inl, inr}
use mathlib.Core.Bool.{Bool, true, false, ◌&&◌}
use mathlib.Core.List.{List, [], ◌∷◌, ◌++◌, map}
use native.Mathlib.Omega.{arith}
use administrative_orchestra.Base.Tests.{Bool-cases}
use administrative_orchestra.Base.Lists.{All, any, keep}
use administrative_orchestra.Base.Sorting.{Pairwise}

pub All-mp {ℓ κ μ} :
    {A : Type ℓ} (P : A → Type κ) (Q : A → Type μ) (xs : List A)
    → ((x : A) → P x → Q x)
    → All P xs
    → All Q xs
All-mp P Q [] f h = tt
All-mp P Q (x ∷ xs) f h = (f x h.0, All-mp P Q xs f h.1)

pub Pairwise-mp {ℓ κ μ} :
    {A : Type ℓ} (R : A → A → Type κ) (S : A → A → Type μ) (xs : List A)
    → ((x y : A) → R x y → S x y)
    → Pairwise R xs
    → Pairwise S xs
Pairwise-mp R S [] f h = tt
Pairwise-mp R S (x ∷ xs) f h = (All-mp (R x) (S x) xs (f x) h.0, Pairwise-mp R S xs f h.1)

pub any_none {ℓ} :
    {A : Type ℓ} (p : A → Bool) (xs : List A) → All (λ x. p x ≡ false) xs → any p xs ≡ false
any_none p [] h = refl
any_none p (x ∷ xs) h = ground (arith, h.0, any_none p xs h.1)

pub none_any {ℓ} :
    {A : Type ℓ} (p : A → Bool) (xs : List A) → any p xs ≡ false → All (λ x. p x ≡ false) xs
none_any p [] h = tt
none_any p (x ∷ xs) h = (ground arith, none_any p xs (ground arith))

pub All-both {ℓ κ μ ν} :
    {A : Type ℓ} (P : A → Type κ) (Q : A → Type μ) (R : A → Type ν) (xs : List A)
    → ((x : A) → P x → Q x → R x)
    → All P xs
    → All Q xs
    → All R xs
All-both P Q R [] f h k = tt
All-both P Q R (x ∷ xs) f h k = (f x h.0 k.0, All-both P Q R xs f h.1 k.1)

-- The two quantifiers over lists change places.
pub All-swap {ℓ κ μ} :
    {A : Type ℓ} {B : Type κ} (P : A → B → Type μ) (xs : List A) (ys : List B)
    → All (λ x. All (P x) ys) xs
    → All (λ y. All (λ x. P x y) xs) ys
All-swap P xs [] h = tt
All-swap P xs (y ∷ ys) h =
    (All-mp _ _ xs (λ x k. k.0) h, All-swap P xs ys (All-mp _ _ xs (λ x k. k.1) h))

pub any_cong_on {ℓ} :
    {A : Type ℓ} (p q : A → Bool) (xs : List A) → All (λ x. p x ≡ q x) xs → any p xs ≡ any q xs
any_cong_on p q [] h = refl
any_cong_on p q (x ∷ xs) h = rw h.0 (rw (any_cong_on p q xs h.1) refl)

pub keep-keep_on {ℓ} :
    {A : Type ℓ} (p q r : A → Bool) (xs : List A)
    → All (λ x. q x ≡ true → p x ≡ r x) xs
    → keep p (keep q xs) ≡ keep (λ x. q x && r x) xs
keep-keep_on p q r [] h = refl
keep-keep_on p q r (x ∷ xs) h = elim (Bool-cases (q x)) [
  | inl inside ↦ rw inside (rw (h.0 inside) (rw (keep-keep_on p q r xs h.1) refl))
  | inr outside ↦ rw outside (keep-keep_on p q r xs h.1)
]

pub keep_holds {ℓ} : {A : Type ℓ} (p : A → Bool) (xs : List A) → All (λ x. p x ≡ true) (keep p xs)
keep_holds p [] = tt
keep_holds p (x ∷ xs) = elim (Bool-cases (p x)) [
  | inl kept ↦ rw kept (kept, keep_holds p xs)
  | inr dropped ↦ rw dropped (keep_holds p xs)
]

pub Pairwise-with {ℓ κ μ ν} :
    {A : Type ℓ} (P : A → Type κ) (R : A → A → Type μ) (S : A → A → Type ν) (xs : List A)
    → ((x y : A) → P x → P y → R x y → S x y)
    → All P xs
    → Pairwise R xs
    → Pairwise S xs
Pairwise-with P R S [] f h p = tt
Pairwise-with P R S (x ∷ xs) f h p =
    (All-both P (R x) (S x) xs (λ y q r. f x y h.0 q r) h.1 p.0, Pairwise-with P R S xs f h.1 p.1)

pub All-map {ℓ κ} :
    {A B : Type ℓ} (P : B → Type κ) (f : A → B) (xs : List A)
    → All (λ x. P (f x)) xs
    → All P (map f xs)
All-map P f [] h = tt
All-map P f (x ∷ xs) h = (h.0, All-map P f xs h.1)

pub Pairwise-map {ℓ κ} :
    {A : Type ℓ} (R : A → A → Type κ) (f : A → A) (xs : List A)
    → ((x y : A) → R x y → R (f x) (f y))
    → Pairwise R xs
    → Pairwise R (map f xs)
Pairwise-map R f [] keeps h = tt
Pairwise-map R f (x ∷ xs) keeps h =
    (All-map (R (f x)) f xs (All-mp _ _ xs (keeps x) h.0), Pairwise-map R f xs keeps h.1)

pub All-append {ℓ κ} :
    {A : Type ℓ} (P : A → Type κ) (xs : List A) (y : A) → All P xs → P y → All P (xs ++ y ∷ [])
All-append P [] y h p = (p, tt)
All-append P (x ∷ xs) y h p = (h.0, All-append P xs y h.1 p)

pub Pairwise-append {ℓ κ} :
    {A : Type ℓ} (R : A → A → Type κ) (xs : List A) (y : A)
    → Pairwise R xs
    → All (λ x. R x y) xs
    → Pairwise R (xs ++ y ∷ [])
Pairwise-append R [] y h p = (tt, tt)
Pairwise-append R (x ∷ xs) y h p = (All-append (R x) xs y h.0 p.0, Pairwise-append R xs y h.1 p.1)
