-- ===== src/Base/Errors.antt =====
-- What a call of the source ends with: a value, or the exception that it raises.
use mathlib.Core.Path.{◌≡◌, refl}
use mathlib.Core.Bool.{Bool, true, false}
use administrative_orchestra.Base.Tests.{if◌then◌else◌}
use mathlib.Core.Option.{Option, none, some}

pub data Outcome {ℓ} (E : Type 0) (A : Type ℓ) : Type ℓ where
  ok : A → Outcome E A
  err : E → Outcome E A

infixl 5 ◌>>=◌ ◌>>◌
abbrev pub ◌>>=◌ {ℓ κ} :
    {E : Type 0} {A : Type ℓ} {B : Type κ} → Outcome E A → (A → Outcome E B) → Outcome E B
err raised >>= next = err raised
ok a >>= next = next a

abbrev pub ◌>>◌ {ℓ} : {E : Type 0} {B : Type ℓ} → Outcome E (Unit {0}) → Outcome E B → Outcome E B
first >> second = first >>= λ done. second

-- `if c: raise e`
abbrev pub raise_if : {E : Type 0} → Bool → E → Outcome E (Unit {0})
raise_if true e = err e
raise_if false e = ok tt

abbrev pub or_raise {ℓ} : {E : Type 0} {A : Type ℓ} → Option A → E → Outcome E A
or_raise none e = err e
or_raise (some a) e = ok a

abbrev pub is_ok {ℓ} : {E : Type 0} {A : Type ℓ} → Outcome E A → Bool
is_ok (ok a) = true
is_ok (err e) = false

pub >>=-eq-ok {ℓ κ} :
    {E : Type 0} {A : Type ℓ} {B : Type κ} (o : Outcome E A) (next : A → Outcome E B) {r : B}
    → (o >>= next) ≡ ok r
    → (a : A) × (o ≡ ok a) × (next a ≡ ok r)
>>=-eq-ok (err raised) next p = cc
>>=-eq-ok (ok a) next p = (a, refl, p)

pub >>-eq-ok {ℓ} :
    {E : Type 0} {B : Type ℓ} (c : Bool) (e : E) (k : Outcome E B) {b : B}
    → (raise_if c e >> k) ≡ ok b
    → (c ≡ false) × (k ≡ ok b)
>>-eq-ok true e k h = cc
>>-eq-ok false e k h = (refl, h)

-- `except E as e: raise f(e)`
abbrev pub map_err {ℓ} : {D E : Type 0} {A : Type ℓ} → (D → E) → Outcome D A → Outcome E A
map_err f (ok a) = ok a
map_err f (err e) = err (f e)

pub ok_injective {ℓ} :
    {E : Type 0} {A : Type ℓ} (a b : A) (o : Outcome E A) → o ≡ ok a → o ≡ ok b → a ≡ b
ok_injective a b (ok c) p q = cc
ok_injective a b (err e) p q = cc

pub if-eq-ok {ℓ} :
    {E : Type 0} {A : Type ℓ} (c : Bool) (p q : A) (e : E)
    → (if c then ok p else err e) ≡ ok q
    → (c ≡ true) × (p ≡ q)
if-eq-ok true p q e h = (refl, ok_injective p q (ok p) refl h)
if-eq-ok false p q e h = cc

pub if-err-ok {ℓ} :
    {E : Type 0} {A : Type ℓ} (c : Bool) (p q : A) (e : E)
    → (if c then err e else ok p) ≡ ok q
    → (c ≡ false) × (p ≡ q)
if-err-ok true p q e h = cc
if-err-ok false p q e h = (refl, ok_injective p q (ok p) refl h)

pub or_raise-eq-ok {ℓ} :
    {E : Type 0} {A : Type ℓ} (o : Option A) (e : E) (a : A) → or_raise o e ≡ ok a → o ≡ some a
or_raise-eq-ok none e a h = cc
or_raise-eq-ok (some b) e a h = cc
