-- ===== src/AuthorityLifecycle/Shrinking.antt =====
-- The roles of principals after calls of authority_lifecycle.py.
use administrative_orchestra.Authority.{
  Directory, assignment_holds, delegation_holds, delegation_invalid, roles_for, scope_matches,
  source_holds,
}
use administrative_orchestra.Authority.Roles.{
  asks, asks-roles_for, assignment_gives, delegation_gives, is_void,
}
use administrative_orchestra.AuthorityLifecycle.Operations.{
  assignment_validity, delegation_validity, expire_row,
}
use administrative_orchestra.AuthorityLifecycle.Windows.{
  assignment-IsWindow, assignment_same, current-expire_row, delegation-IsWindow, delegation_same,
}
use administrative_orchestra.Base.{
  All, All-mp, Bool, Bool-cases, List, Text, Timestamp, Uuid, [], any, any-keep, any_cong,
  any_cong_on, ap, arith, err, false, if◌then◌else◌, inl, inr, keep, leb, list_eq, ltb, map, nat_eq,
  not, ok, option_eq, refl, string_eq, sym, true, ◌&&◌, ◌==◌, ◌||◌, ◌∙◌, ◌∷◌, ◌≡◌, ◌⊎◌,
}
use administrative_orchestra.Domain.{Delegation, RoleAssignment, assignment_current}

pub any-map {ℓ κ} :
    {A : Type ℓ} {B : Type κ} (f : A → B) (p : B → Bool) (xs : List A)
    → any p (map f xs) ≡ any (λ x. p (f x)) xs
any-map f p [] = refl
any-map f p (x ∷ xs) = ap (λ b. p (f x) || b) (any-map f p xs)

and_swap : (a b c : Bool) → ((a && b) && c) ≡ ((a && c) && b)
and_swap true true true = refl
and_swap true true false = refl
and_swap true false true = refl
and_swap true false false = refl
and_swap false b c = refl

module _ (at : Timestamp) (id : Uuid) (t : Timestamp) where
  -- The time lies before the end that the call gives to the row with the id.
  abbrev spared : Uuid → Bool
  spared key = not (key == id) || ltb at t

  -- The rows that count at the time: from the end on, all but the row with the id.
  abbrev pub counting : {Row : Type 0} → (Row → Uuid) → List Row → List Row
  counting key rows = if ltb at t then rows else keep (λ r. not (key r == id)) rows

  -- The directory in which the assignment does not stand from the end on.
  abbrev pub without_assignment : Directory → Directory
  without_assignment dir = record dir {
    assignments = counting (λ a. a.assignment_id) dir.assignments;
  }

  -- The directory in which the delegation does not stand from the end on.
  abbrev pub without_delegation : Directory → Directory
  without_delegation dir = record dir {
    delegations = counting (λ d. d.delegation_id) dir.delegations;
  }

module _ (scope : Text) (at : Timestamp) (id : Uuid) (t : Timestamp) where
  assignment_holds-expire :
      (a : RoleAssignment)
      → assignment_holds scope at (expire_row assignment_validity id t a)
        ≡ (assignment_holds scope at a && spared at id t a.assignment_id)
  assignment_holds-expire a = rw (assignment_same id t a).1.1 (
      rw (current-expire_row assignment_validity assignment-IsWindow id t a at) (
        and_swap (assignment_current a at) (spared at id t a.assignment_id)
          (scope_matches a.organization_scope scope)))

  delegation_holds-expire :
      (d : Delegation)
      → delegation_holds scope at (expire_row delegation_validity id t d)
        ≡ (delegation_holds scope at d && spared at id t d.delegation_id)
  delegation_holds-expire d = rw (delegation_same id t d).1.1.1 (
      rw (current-expire_row delegation_validity delegation-IsWindow id t d at) (
        and_swap (leb d.valid_from at && ltb at d.valid_until) (spared at id t d.delegation_id)
          (scope_matches d.organization_scope scope)))

  assignment_gives-expire :
      (role : Text) (a : RoleAssignment)
      → assignment_gives scope at role (expire_row assignment_validity id t a)
        ≡ (assignment_gives scope at role a && spared at id t a.assignment_id)
  assignment_gives-expire role a =
      let row = expire_row assignment_validity id t a in
      ap (λ h. h && (role == row.role)) (assignment_holds-expire a)
      ∙ ap (λ r. (assignment_holds scope at a && spared at id t a.assignment_id) && (role == r))
          (assignment_same id t a).1.0
      ∙ and_swap (assignment_holds scope at a) (spared at id t a.assignment_id) (role == a.role)

  delegation_gives-expire :
      (role : Text) (dir : Directory) (d : Delegation)
      → delegation_gives scope at role dir (expire_row delegation_validity id t d)
        ≡ (delegation_gives scope at role dir d && spared at id t d.delegation_id)
  delegation_gives-expire role dir d =
      let row = expire_row delegation_validity id t d in
      let same = delegation_same id t d in
      ap (λ h. (h && source_holds scope at dir row) && (role == row.role))
        (delegation_holds-expire d)
      ∙ ap
          (λ s.
            ((delegation_holds scope at d && spared at id t d.delegation_id) && s)
            && (role == row.role))
          (ap (λ from. holder from row.role) same.0 ∙ ap (holder d.from_principal_id) same.1.1.0)
      ∙ ap
          (λ r.
            ((delegation_holds scope at d && spared at id t d.delegation_id)
              && source_holds scope at dir d)
            && (role == r))
          same.1.1.0
      ∙ ap (λ b. b && (role == d.role))
          (and_swap (delegation_holds scope at d) (spared at id t d.delegation_id)
            (source_holds scope at dir d))
      ∙ and_swap (delegation_holds scope at d && source_holds scope at dir d)
          (spared at id t d.delegation_id) (role == d.role)
    where
      holder : Text → Text → Bool
      holder from r =
          any (assignment_holds scope at)
            (keep (λ a. (a.principal_id == from) && (a.role == r)) dir.assignments)

  module _ {Row : Type 0} (key : Row → Uuid) (f : Row → Row) (kept holds : Row → Bool)
      (kept_same : (r : Row) → kept (f r) ≡ kept r)
      (holds_spared : (r : Row) → holds (f r) ≡ (holds r && spared at id t (key r))) where
    any-counting :
        (rows : List Row)
        → any holds (keep kept (map f rows)) ≡ any holds (keep kept (counting at id t key rows))
    any-counting rows =
        any-keep holds kept (map f rows)
        ∙ any-map f (λ r. kept r && holds r) rows
        ∙ any_cong _ (λ r. (kept r && holds r) && spared at id t (key r)) rows
            (λ r.
              rw (kept_same r)
                (rw (holds_spared r) (and_assoc (kept r) (holds r) (spared at id t (key r)))))
        ∙ chosen (Bool-cases (ltb at t))
        ∙ sym (any-keep holds kept (counting at id t key rows))
      where
        and_assoc : (a b c : Bool) → (a && (b && c)) ≡ ((a && b) && c)
        and_assoc true b c = refl
        and_assoc false b c = refl

        all_count : (x n : Bool) → (x && (not n || true)) ≡ x
        all_count true true = refl
        all_count true false = refl
        all_count false n = refl

        others_count : (x n : Bool) → (x && (not n || false)) ≡ (not n && x)
        others_count true true = refl
        others_count true false = refl
        others_count false true = refl
        others_count false false = refl

        chosen :
            (ltb at t ≡ true) ⊎ (ltb at t ≡ false)
            → any (λ r. (kept r && holds r) && spared at id t (key r)) rows
              ≡ any (λ r. kept r && holds r) (counting at id t key rows)
        chosen (inl before) =
            rw before (any_cong _ _ rows (λ r. all_count (kept r && holds r) (key r == id)))
        chosen (inr after) = rw after (
            any_cong _ _ rows (λ r. others_count (kept r && holds r) (key r == id))
            ∙ sym (any-keep (λ r. kept r && holds r) (λ r. not (key r == id)) rows))

  module _ (principal role : Text) (dir : Directory) where
    source_holds-expire :
        (d : Delegation)
        → source_holds scope at
            (record dir { assignments = map (expire_row assignment_validity id t) dir.assignments })
            d
          ≡ source_holds scope at (without_assignment at id t dir) d
    source_holds-expire d =
        any-counting (λ a. a.assignment_id) (expire_row assignment_validity id t)
          (λ a. (a.principal_id == d.from_principal_id) && (a.role == d.role))
          (assignment_holds scope at)
          (λ a. rw (assignment_same id t a).0 (rw (assignment_same id t a).1.0 refl))
          assignment_holds-expire dir.assignments

    pub roles-expire_assignment :
        asks scope at role (
          roles_for principal scope at (record dir {
            assignments = map (expire_row assignment_validity id t) dir.assignments;
          }))
        ≡ asks scope at role (roles_for principal scope at (without_assignment at id t dir))
    roles-expire_assignment =
        let after = record dir {
          assignments = map (expire_row assignment_validity id t) dir.assignments;
        } in
        let grants = keep (λ d. d.to_principal_id == principal) dir.delegations in
        asks-roles_for scope at role after principal
        ∙ ap
            (λ held. if any (is_void scope at role) grants then err delegation_invalid else ok held)
            (ap (λ direct. any (delegation_gives scope at role after) grants || direct)
                (any-counting (λ a. a.assignment_id) (expire_row assignment_validity id t)
                  (λ a. a.principal_id == principal) (assignment_gives scope at role)
                  (λ a. rw (assignment_same id t a).0 refl) (assignment_gives-expire role)
                  dir.assignments)
              ∙ ap
                  (λ granted.
                    granted
                    || any (assignment_gives scope at role) (
                        keep (λ a. a.principal_id == principal)
                          (without_assignment at id t dir).assignments))
                  (any_cong _ _ grants (λ d.
                    ap (λ s. (delegation_holds scope at d && s) && (role == d.role))
                      (source_holds-expire d))))
        ∙ sym (asks-roles_for scope at role (without_assignment at id t dir) principal)

    -- Expiry after the start leaves no empty window.
    stays_proper :
        (d : Delegation)
        → ((d.delegation_id == id) ≡ true
            → (ltb d.valid_from t ≡ true) × (ltb d.valid_from d.valid_until ≡ true))
        → ((d.to_principal_id == principal)
            && leb
                (expire_row delegation_validity id t d).valid_until
                (expire_row delegation_validity id t d).valid_from)
          ≡ ((d.to_principal_id == principal) && leb d.valid_until d.valid_from)
    stays_proper d p = elim (Bool-cases (d.delegation_id == id)) [
      | inr other ↦ rw other refl
      | inl it ↦
          let (later, proper) = p it in
          elim (Bool-cases (ltb t d.valid_until)) [
            | inl earlier ↦ rw it (rw earlier (ground (arith, later, proper)))
            | inr late ↦ rw it (rw late refl)
          ]
    ]

    -- The window of the row with the id is not empty, and starts before the end that it is given.
    abbrev pub StaysProper : Delegation → Type 0
    StaysProper d =
        (d.delegation_id == id) ≡ true
        → (ltb d.valid_from t ≡ true) × (ltb d.valid_from d.valid_until ≡ true)

    abbrev void_grant : Delegation → Bool
    void_grant d = (d.to_principal_id == principal) && is_void scope at role d

    others_void :
        (d : Delegation)
        → StaysProper d
        → void_grant d ≡ (not (d.delegation_id == id) && void_grant d)
    others_void d p = elim (Bool-cases (d.delegation_id == id)) [
      | inr other ↦ rw other refl
      | inl it ↦ let (later, proper) = p it in rw it (ground (arith, proper))
    ]

    void-counting :
        (rows : List Delegation)
        → All StaysProper rows
        → (ltb at t ≡ true) ⊎ (ltb at t ≡ false)
        → any void_grant rows ≡ any void_grant (counting at id t (λ d. d.delegation_id) rows)
    void-counting rows h (inl before) = rw before refl
    void-counting rows h (inr after) = rw after (
        any_cong_on _ _ rows (All-mp _ _ rows others_void h)
        ∙ sym (any-keep void_grant (λ d. not (d.delegation_id == id)) rows))

    void-expire :
        (rows : List Delegation)
        → All StaysProper rows
        → any (is_void scope at role) (
            keep
              (λ d. d.to_principal_id == principal)
              (map (expire_row delegation_validity id t) rows))
          ≡ any (is_void scope at role) (
              keep
                (λ d. d.to_principal_id == principal)
                (counting at id t (λ d. d.delegation_id) rows))
    void-expire rows h =
        any-keep (is_void scope at role) (λ d. d.to_principal_id == principal)
          (map (expire_row delegation_validity id t) rows)
        ∙ any-map (expire_row delegation_validity id t) void_grant rows
        ∙ any_cong_on _ void_grant rows (All-mp _ _ rows expired_void h)
        ∙ void-counting rows h (Bool-cases (ltb at t))
        ∙ sym (
            any-keep (is_void scope at role) (λ d. d.to_principal_id == principal)
              (counting at id t (λ d. d.delegation_id) rows))
      where
        expired_void :
            (d : Delegation)
            → StaysProper d
            → void_grant (expire_row delegation_validity id t d) ≡ void_grant d
        expired_void d p = rw (delegation_same id t d).1.0 (stays_proper d p)

    pub roles-expire_delegation :
        All StaysProper dir.delegations
        → asks scope at role (
            roles_for principal scope at (record dir {
              delegations = map (expire_row delegation_validity id t) dir.delegations;
            }))
          ≡ asks scope at role (roles_for principal scope at (without_delegation at id t dir))
    roles-expire_delegation h =
        let after = record dir {
          delegations = map (expire_row delegation_validity id t) dir.delegations;
        } in
        let direct =
          any (assignment_gives scope at role)
            (keep (λ a. a.principal_id == principal) dir.assignments) in
        asks-roles_for scope at role after principal
        ∙ ap
            (λ void.
              if void
              then err delegation_invalid
              else ok (
                  any (delegation_gives scope at role dir)
                    (keep (λ d. d.to_principal_id == principal) after.delegations)
                  || direct))
            (void-expire dir.delegations h)
        ∙ ap
            (λ granted.
              if any (is_void scope at role) (
                keep (λ d. d.to_principal_id == principal)
                  (without_delegation at id t dir).delegations)
              then err delegation_invalid
              else ok (granted || direct))
            (any-counting (λ d. d.delegation_id) (expire_row delegation_validity id t)
              (λ d. d.to_principal_id == principal) (delegation_gives scope at role dir)
              (λ d. rw (delegation_same id t d).1.0 refl) (delegation_gives-expire role dir)
              dir.delegations)
        ∙ sym (asks-roles_for scope at role (without_delegation at id t dir) principal)
