-- ===== src/Base/Sets.antt =====
-- Membership in lists and sets of texts, as equations between tests.
use Prim.Native.String.{String}
use mathlib.Core.Path.{◌≡◌, refl, ◌∙◌}
use mathlib.Core.Bool.{Bool, true, false, not, ◌&&◌, ◌||◌}
use mathlib.Core.List.{List, [], ◌∷◌, ◌++◌}
use native.Mathlib.Omega.{arith}
use administrative_orchestra.Base.Tests.{◌==◌, if◌then◌else◌, str_beq_iff, string_eq}
use administrative_orchestra.Base.Lists.{any, contains, keep, set_add, set_remove}

pub contains-append :
    (xs : List String) (a p : String) → contains (xs ++ a ∷ []) p ≡ (contains xs p || p == a)
contains-append [] a p = ground arith
contains-append (x ∷ xs) a p = ground (arith, contains-append xs a p)

pub contains-set_add :
    (xs : List String) (a p : String) → contains (set_add a xs) p ≡ (contains xs p || p == a)
contains-set_add xs a p = ground (arith, str_beq_iff p a)

pub contains-set_remove :
    (xs : List String) (a p : String)
    → contains (set_remove a xs) p ≡ (contains xs p && not (p == a))
contains-set_remove [] a p = refl
contains-set_remove (x ∷ xs) a p =
    ground (arith, contains-set_remove xs a p, str_beq_iff p x, str_beq_iff x a, str_beq_iff p a)

or_comm : (a b : Bool) → (a || b) ≡ (b || a)
or_comm true true = refl
or_comm true false = refl
or_comm false true = refl
or_comm false false = refl

-- `if b: s.add(a)`
pub contains-add_if :
    (b : Bool) (xs : List String) (a p : String)
    → contains (if b then set_add a xs else xs) p ≡ ((b && p == a) || contains xs p)
contains-add_if true xs a p = contains-set_add xs a p ∙ or_comm (contains xs p) (p == a)
contains-add_if false xs a p = refl

pub or_insert : (a b c : Bool) → (a || (b || c)) ≡ ((b || a) || c)
or_insert true true c = refl
or_insert true false c = refl
or_insert false true c = refl
or_insert false false c = refl

module _ {ℓ} {A : Type ℓ} where
  pub any-keep : (p q : A → Bool) (xs : List A) → any p (keep q xs) ≡ any (λ x. q x && p x) xs
  any-keep p q [] = refl
  any-keep p q (x ∷ xs) = ground (arith, any-keep p q xs)

  -- Tests that agree on each element agree on the list.
  pub any_cong : (p q : A → Bool) (xs : List A) → ((x : A) → p x ≡ q x) → any p xs ≡ any q xs
  any_cong p q [] h = refl
  any_cong p q (x ∷ xs) h = ground (arith, h x, any_cong p q xs h)
