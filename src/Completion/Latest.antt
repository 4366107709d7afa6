-- ===== src/Completion/Latest.antt =====
-- The dicts that completion.py builds by comprehensions, against the lists that they are built from.
use administrative_orchestra.Base.{
  All, All-mp, Bool, Bool-cases, Dict, List, Option, Uuid, [], any, ap, arith, beq_refl, false,
  if◌then◌else◌, inl, inr, insert, keep, list_eq, lookup, nat_eq, none, option_eq, refl, some,
  string_eq, subst, sym, true, ◌&&◌, ◌==◌, ◌||◌, ◌↔◌, ◌∙◌, ◌∷◌, ◌≡◌,
}
use administrative_orchestra.Completion.Requirements.{index_by}
use administrative_orchestra.Domain.{is_some}

abbrev or_else : {A : Type 0} → Option A → Option A → Option A
or_else none b = b
or_else (some a) b = some a

-- The last element that passes a test.
abbrev pub last_of : {A : Type 0} → (A → Bool) → List A → Option A
last_of p [] = none
last_of p (x ∷ xs) = or_else (last_of p xs) (if p x then some x else none)

module _ {A : Type 0} where
  none_is_some : {a : A} → none ≡ some a → ⊥
  none_is_some h = cc

  lookup-insert :
      (id k : Uuid) (x : A) (d : Dict Uuid A)
      → lookup id (insert k x d) ≡ (if id == k then some x else lookup id d)
  lookup-insert id k x [] = refl
  lookup-insert id k x ((j, y) ∷ d) = elim (Bool-cases (k == j)) [
    | inl same ↦ elim (Bool-cases (id == j)) [
      | inl it ↦ let also : (id == k) ≡ true = ground (arith, same, it) in rw (same, it, also) refl
      | inr other ↦
          let also : (id == k) ≡ false = ground (arith, same, other) in rw (same, other, also) refl
    ]
    | inr differs ↦ elim (Bool-cases (id == j)) [
      | inl it ↦
          let also : (id == k) ≡ false = ground (arith, differs, it) in rw (differs, it, also) refl
      | inr other ↦ rw (differs, other) (lookup-insert id k x d)
    ]
  ]

  -- The last element wins over the dict that the comprehension starts with.
  lookup-index_by_on :
      (key : A → Uuid) (id : Uuid) (d : Dict Uuid A) (xs : List A)
      → lookup id (index_by key d xs) ≡ or_else (last_of (λ x. id == key x) xs) (lookup id d)
  lookup-index_by_on key id d [] = refl
  lookup-index_by_on key id d (x ∷ xs) =
      lookup-index_by_on key id (insert (key x) x d) xs
      ∙ ap (or_else (last_of (λ x. id == key x) xs)) (lookup-insert id (key x) x d)
      ∙ regroup (last_of (λ x. id == key x) xs) (id == key x)
    where
      regroup :
          (o : Option A) (b : Bool)
          → or_else o (if b then some x else lookup id d)
            ≡ or_else (or_else o (if b then some x else none)) (lookup id d)
      regroup (some a) b = refl
      regroup none true = refl
      regroup none false = refl

  or_else-none : (o : Option A) → or_else o none ≡ o
  or_else-none none = refl
  or_else-none (some a) = refl

  pub lookup-index_by :
      (key : A → Uuid) (id : Uuid) (xs : List A)
      → lookup id (index_by key [] xs) ≡ last_of (λ x. id == key x) xs
  lookup-index_by key id xs =
      lookup-index_by_on key id [] xs ∙ or_else-none (last_of (λ x. id == key x) xs)

  pub last_of-keep :
      (p q : A → Bool) (xs : List A) → last_of p (keep q xs) ≡ last_of (λ x. q x && p x) xs
  last_of-keep p q [] = refl
  last_of-keep p q (x ∷ xs) = elim (Bool-cases (q x)) [
    | inl kept ↦ rw kept (ap (λ o. or_else o (if p x then some x else none)) (last_of-keep p q xs))
    | inr dropped ↦
        rw dropped (last_of-keep p q xs ∙ sym (or_else-none (last_of (λ x. q x && p x) xs)))
  ]

  pub is_some-last_of : (p : A → Bool) (xs : List A) → is_some (last_of p xs) ≡ any p xs
  is_some-last_of p [] = refl
  is_some-last_of p (x ∷ xs) =
      found (last_of p xs) (p x) ∙ ap (λ b. p x || b) (is_some-last_of p xs)
    where
      found :
          (o : Option A) (b : Bool)
          → is_some (or_else o (if b then some x else none)) ≡ (b || is_some o)
      found none true = refl
      found none false = refl
      found (some a) true = refl
      found (some a) false = refl

  -- No key stands twice.
  abbrev IsKeyed : Dict Uuid A → Type 0
  IsKeyed [] = Unit
  IsKeyed ((j, x) ∷ d) = (lookup j d ≡ none) × IsKeyed d

  insert-IsKeyed : (k : Uuid) (x : A) (d : Dict Uuid A) → IsKeyed d → IsKeyed (insert k x d)
  insert-IsKeyed k x [] h = (refl, tt)
  insert-IsKeyed k x ((j, y) ∷ d) (new, h) = elim (Bool-cases (k == j)) [
    | inl same ↦ rw same (new, h)
    | inr differs ↦
        let apart : (j == k) ≡ false = ground (arith, differs) in
        rw differs (lookup-insert j k x d ∙ rw apart new, insert-IsKeyed k x d h)
  ]

  index_by-IsKeyed :
      (key : A → Uuid) (d : Dict Uuid A) (xs : List A) → IsKeyed d → IsKeyed (index_by key d xs)
  index_by-IsKeyed key d [] h = h
  index_by-IsKeyed key d (x ∷ xs) h =
      index_by-IsKeyed key (insert (key x) x d) xs (insert-IsKeyed (key x) x d h)

  keyed_entries : (d : Dict Uuid A) → IsKeyed d → All (λ e. lookup e.0 d ≡ some e.1) d
  keyed_entries [] h = tt
  keyed_entries ((j, x) ∷ d) (new, h) =
      (rw (beq_refl j) refl, All-mp _ _ d kept (keyed_entries d h))
    where
      kept :
          (e : Uuid × A)
          → lookup e.0 d ≡ some e.1
          → (if e.0 == j then some x else lookup e.0 d) ≡ some e.1
      kept e found = elim (Bool-cases (e.0 == j)) [
        | inl same ↦
            let is_j : e.0 ≡ j = ground (arith, same) in
            absurd (none_is_some (sym new ∙ ap (λ k. lookup k d) (sym is_j) ∙ found))
        | inr other ↦ rw other found
      ]

  looked_up :
      (P : Uuid × A → Type 0) (id : Uuid) (x : A) (d : Dict Uuid A)
      → All P d
      → lookup id d ≡ some x
      → P (id, x)
  looked_up P id x [] h found = absurd (none_is_some found)
  looked_up P id x ((j, y) ∷ d) (p, h) found = elim (Bool-cases (id == j)) [
    | inl same ↦
        let is_j : j ≡ id = ground (arith, same) in
        let is_x : some y ≡ some x = rw same at found in
        subst (λ k. P (k, x)) is_j (subst (λ z. P (j, z)) (some_injective is_x) p)
    | inr other ↦ looked_up P id x d h (rw other at found)
  ]
    where
      some_injective : some y ≡ some x → y ≡ x
      some_injective h = cc

  -- Every entry of the dict is the last element of its key.
  pub All-index_by :
      (P : Uuid × A → Type 0) (key : A → Uuid) (xs : List A)
      → All P (index_by key [] xs)
        ↔ ((id : Uuid) (x : A) → last_of (λ y. id == key y) xs ≡ some x → P (id, x))
  All-index_by P key xs = (
    λ h id x found. looked_up P id x (index_by key [] xs) h (lookup-index_by key id xs ∙ found),
    λ f.
        All-mp _ _ (index_by key [] xs)
          (λ e found. f e.0 e.1 (sym (lookup-index_by key e.0 xs) ∙ found))
          (keyed_entries (index_by key [] xs) (index_by-IsKeyed key [] xs tt)),
  )
