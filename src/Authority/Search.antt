-- ===== src/Authority/Search.antt =====
-- The search of `_select_role_decisions` (authority.py) against the assignments of decisions to roles.
use mathlib.Core.List.{append-nil, append_assoc}
use administrative_orchestra.Authority.Decisions.{candidates}
use administrative_orchestra.Authority.Selection.{
  Trail, pop, push, select_role_decisions, try_each, undo, visit,
}
use administrative_orchestra.Base.{
  Any, Bool, Bool-cases, List, Text, [], any, ap, arith, contains, contains-append,
  contains-set_add, contains-set_remove, false, here, if◌then◌else◌, inl, inr, map, nat_eq, none,
  option_eq, refl, some, str_beq_iff, string_eq, subst, sym, there, true, ◌&&◌, ◌++◌, ◌==◌, ◌∙◌,
  ◌∷◌, ◌≡◌, ◌⊎◌,
}
use administrative_orchestra.Domain.{Decision}

abbrev pub principals_of : List Decision → List Text
principals_of = map (λ d. d.principal_id)

-- `ds` begins with one of `xs`, whose principal is new where principals must be distinct, and goes on
-- as `P` says.
abbrev pub Extends :
    Bool
    → (List Decision → List Decision → Type 0)
    → List Decision
    → List Decision
    → List Decision
    → Type 0
Extends distinct P xs chosen [] = ⊥
Extends distinct P xs chosen (d ∷ ds) =
    Any (λ x. x ≡ d) xs
    × ((distinct && contains (principals_of chosen) d.principal_id) ≡ false)
    × P (chosen ++ d ∷ []) ds

-- `ds` extends `chosen` by one candidate for each role.
abbrev pub Assigns :
    Bool → (Text → List Decision) → List Text → List Decision → List Decision → Type 0
Assigns distinct candidates [] chosen ds = ds ≡ []
Assigns distinct candidates (role ∷ roles) chosen ds =
    Extends distinct (Assigns distinct candidates roles) (candidates role) chosen ds

-- The set of used principals is that of the selected decisions.
abbrev IsTrail : Trail → Type 0
IsTrail t = (p : Text) → contains t.used p ≡ contains (principals_of t.selected) p

pub principals-append :
    (ds : List Decision) (d : Decision)
    → principals_of (ds ++ d ∷ []) ≡ principals_of ds ++ d.principal_id ∷ []
principals-append [] d = refl
principals-append (x ∷ ds) d = ap (λ l. x.principal_id ∷ l) (principals-append ds d)

pop-append : (ds : List Decision) (d : Decision) → pop (ds ++ d ∷ []) ≡ ds
pop-append [] d = refl
pop-append (x ∷ []) d = refl
pop-append (x ∷ y ∷ ds) d = ap (λ l. x ∷ l) (pop-append (y ∷ ds) d)

any-contains :
    (ds : List Decision) (p : Text)
    → any (λ item. item.principal_id == p) ds ≡ contains (principals_of ds) p
any-contains [] p = refl
any-contains (d ∷ ds) p =
    ground (arith, any-contains ds p, str_beq_iff d.principal_id p, str_beq_iff p d.principal_id)

push-IsTrail : (d : Decision) (t : Trail) → IsTrail t → IsTrail (push d t)
push-IsTrail d t inv p = ground (
  arith,
  contains-set_add t.used d.principal_id p,
  inv p,
  principals-append t.selected d,
  contains-append (principals_of t.selected) d.principal_id p,
)

-- Undoing a push gives back the decisions, and a set with the same principals.
undo_selected :
    (d : Decision) (t u : Trail)
    → u.selected ≡ t.selected ++ d ∷ []
    → (undo d u).selected ≡ t.selected
undo_selected d t u e = rw e (pop-append t.selected d)

undo-IsTrail :
    (d : Decision) (t u : Trail)
    → u.selected ≡ t.selected ++ d ∷ []
    → IsTrail u
    → IsTrail (undo d u)
undo-IsTrail d t u e inv p = ground (
  arith,
  undo_selected d t u e,
  inv p,
  principals-append t.selected d,
  contains-append (principals_of t.selected) d.principal_id p,
  contains-set_remove u.used d.principal_id p,
  any-contains t.selected d.principal_id,
  str_beq_iff p d.principal_id,
)

-- What a search from `chosen` answers: an extension that `P` accepts, or that there is none, with
-- the trail as it was.
abbrev Finds : (List Decision → List Decision → Type 0) → List Decision → Bool × Trail → Type 0
Finds P chosen r =
    ((r.0 ≡ true) × ((ds : List Decision) × (r.1.selected ≡ chosen ++ ds) × P chosen ds))
    ⊎ ((r.0 ≡ false)
        × (r.1.selected ≡ chosen)
        × IsTrail r.1
        × ((ds : List Decision) → ¬ P chosen ds))

module _ (distinct : Bool) (P : List Decision → List Decision → Type 0) where
  abbrev Heads : Decision → List Decision → List Decision → Type 0
  Heads x chosen ds =
      ((distinct && contains (principals_of chosen) x.principal_id) ≡ false)
      × P (chosen ++ x ∷ []) ds

  -- Without an extension that begins with `x`, a search through `xs` is one through `x ∷ xs`.
  skip_head :
      (x : Decision) (xs chosen : List Decision) (r : Bool × Trail)
      → ((ds : List Decision) → ¬ Heads x chosen ds)
      → Finds (Extends distinct P xs) chosen r
      → Finds (Extends distinct P (x ∷ xs)) chosen r
  skip_head x xs chosen r none_here (inl (found, ([], e, h))) = absurd h
  skip_head x xs chosen r none_here (inl (found, (d ∷ ds, e, (m, new, rest)))) =
      inl (found, (d ∷ ds, e, (there m, new, rest)))
  skip_head x xs chosen r none_here (inr (failed, e, inv, no_later)) = inr (failed, e, inv, refute)
    where
      refute : (ds : List Decision) → ¬ Extends distinct P (x ∷ xs) chosen ds
      refute [] h = h
      refute (d ∷ ds) (here q, new, rest) =
          none_here ds (subst (λ y. Heads y chosen ds) (sym q) (new, rest))
      refute (d ∷ ds) (there m, new, rest) = no_later (d ∷ ds) (m, new, rest)

  -- After a trial of `x`: it ends the search, or the search goes on behind `x`.
  retry :
      (next : Trail → Bool × Trail) (x : Decision) (xs : List Decision) (t : Trail)
      (r : Bool × Trail)
      → (distinct && contains (principals_of t.selected) x.principal_id) ≡ false
      → Finds P (t.selected ++ x ∷ []) r
      → ((u : Trail)
          → IsTrail u
          → Finds (Extends distinct P xs) u.selected (try_each distinct next xs u))
      → Finds
          (Extends distinct P (x ∷ xs))
          t.selected
          (if r.0 then (true, r.1) else try_each distinct next xs (undo x r.1))
  retry next x xs t r new (inl (found, (ds, e, h))) later =
      rw found (inl (refl, (x ∷ ds, e ∙ append_assoc t.selected (x ∷ []) ds, (here refl, new, h))))
  retry next x xs t r new (inr (failed, e, inv, refuted)) later = rw failed (
      skip_head x xs t.selected (try_each distinct next xs (undo x r.1)) (λ ds h. refuted ds h.1)
        (subst (λ c. Finds (Extends distinct P xs) c (try_each distinct next xs (undo x r.1)))
          (undo_selected x t r.1 e) (later (undo x r.1) (undo-IsTrail x t r.1 e inv))))

  try_each_lem :
      (next : Trail → Bool × Trail)
      → ((t : Trail) → IsTrail t → Finds P t.selected (next t))
      → (xs : List Decision) (t : Trail) → IsTrail t
      → Finds (Extends distinct P xs) t.selected (try_each distinct next xs t)
  unfolding try_each
  try_each_lem next finds [] t inv = inr (refl, refl, inv, refute)
    where
      refute : (ds : List Decision) → ¬ Extends distinct P [] t.selected ds
      refute [] h = h
      refute (d ∷ ds) (m, new, rest) = elim m [ ]
  try_each_lem next finds (x ∷ xs) t inv =
      elim (Bool-cases (distinct && contains t.used x.principal_id)) [
        | inl skip ↦ rw skip (
            skip_head x xs t.selected (try_each distinct next xs t) (λ ds h. stale skip h.0)
              (try_each_lem next finds xs t inv))
        | inr new ↦ rw new (
            retry next x xs t (next (push x t)) (ground (arith, inv x.principal_id))
              (finds (push x t) (push-IsTrail x t inv)) (try_each_lem next finds xs))
      ]
    where
      stale :
          (distinct && contains t.used x.principal_id) ≡ true
          → (distinct && contains (principals_of t.selected) x.principal_id) ≡ false
          → ⊥
      stale a b = ground (arith, inv x.principal_id)

module _ (distinct : Bool) (candidates : Text → List Decision) where
  visit_lem :
      (roles : List Text) (t : Trail)
      → IsTrail t
      → Finds (Assigns distinct candidates roles) t.selected (visit distinct candidates roles t)
  unfolding visit
  visit_lem [] t inv = inl (refl, ([], sym (append-nil t.selected), refl))
  visit_lem (role ∷ roles) t inv =
      try_each_lem distinct (Assigns distinct candidates roles) (visit distinct candidates roles)
        (visit_lem roles) (candidates role) t inv

  -- `_select_role_decisions` returns an assignment of one candidate to each role, or `None`, and it
  -- returns `None` only if there is no assignment. With `distinct` an assignment repeats no
  -- principal.
  pub select_lem :
      (roles : List Text)
      → ((ds : List Decision) × (select_role_decisions roles candidates distinct ≡ some ds)
          × Assigns distinct candidates roles [] ds)
        ⊎ ((select_role_decisions roles candidates distinct ≡ none)
            × ((ds : List Decision) → ¬ Assigns distinct candidates roles [] ds))
  unfolding select_role_decisions
  select_lem roles = elim (visit_lem roles (record { selected = []; used = [] }) (λ p. refl)) [
    | inl (found, (ds, e, h)) ↦ inl (ds, rw found (ap some e), h)
    | inr (failed, e, inv, refuted) ↦ inr (rw failed refl, refuted)
  ]
