-- ===== src/Authority/Roles.antt =====
-- `AuthorityRepository.roles_for` (authority.py) as a test on the rows.
use administrative_orchestra.Authority.Records.{AuthorityError, Directory, delegation_invalid}
use administrative_orchestra.Authority.Registry.{
  assignment_holds, delegated_roles, delegation_holds, direct_roles, roles_for, source_holds,
}
use administrative_orchestra.Base.{
  Bool, Bool-cases, List, Outcome, Text, Timestamp, [], any, ap, contains, contains-add_if, err,
  if◌then◌else◌, inl, inr, keep, leb, list_eq, nat_eq, ok, option_eq, or_insert, refl, set_add,
  string_eq, ◌&&◌, ◌==◌, ◌||◌, ◌∙◌, ◌∷◌, ◌≡◌,
}
use administrative_orchestra.Domain.{Delegation, RoleAssignment}

module _ (scope : Text) (at : Timestamp) (role : Text) where
  -- An assignment gives the role itself.
  abbrev pub assignment_gives : RoleAssignment → Bool
  assignment_gives a = assignment_holds scope at a && role == a.role

  -- A delegation gives the role if its source holds it.
  abbrev pub delegation_gives : Directory → Delegation → Bool
  delegation_gives dir d =
      (delegation_holds scope at d && source_holds scope at dir d) && role == d.role

  direct_contains :
      (rows : List RoleAssignment)
      → contains (direct_roles scope at rows) role ≡ any assignment_gives rows
  unfolding direct_roles
  direct_contains [] = refl
  direct_contains (a ∷ rows) =
      contains-add_if (assignment_holds scope at a) (direct_roles scope at rows) a.role role
      ∙ ap (λ rest. assignment_gives a || rest) (direct_contains rows)

  -- A row whose window is empty, which no `Delegation` may have.
  abbrev pub is_void : Delegation → Bool
  is_void d = leb d.valid_until d.valid_from

  -- Does a set of roles that was asked for have the role?
  abbrev pub asks : Outcome AuthorityError (List Text) → Outcome AuthorityError Bool
  asks (ok roles) = ok (contains roles role)
  asks (err e) = err e

  -- A question that raises is about roles that could not be read.
  pub asks_err :
      (asked : Outcome AuthorityError (List Text)) (e : AuthorityError)
      → asks asked ≡ err e
      → asked ≡ err e
  asks_err (ok roles) e h = cc
  asks_err (err f) e h = cc

  -- A question that is answered is about roles that could be read.
  pub asks_ok :
      (asked : Outcome AuthorityError (List Text)) (b : Bool)
      → asks asked ≡ ok b
      → (roles : List Text) × (asked ≡ ok roles)
  asks_ok (ok roles) b h = (roles, refl)
  asks_ok (err e) b h = cc

  module _ (dir : Directory) where
    delegated_contains :
        (rows : List Delegation) (roles : List Text)
        → asks (delegated_roles scope at dir rows roles) ≡ (
            if any is_void rows
            then err delegation_invalid
            else ok (any (delegation_gives dir) rows || contains roles role))
    unfolding delegated_roles
    delegated_contains [] roles = refl
    delegated_contains (d ∷ rows) roles = elim (Bool-cases (is_void d)) [
      | inl void ↦ rw void refl
      | inr proper ↦
          let held = delegation_holds scope at d && source_holds scope at dir d in
          rw proper (
            delegated_contains rows (if held then set_add d.role roles else roles)
            ∙ ap
                (λ known.
                  if any is_void rows
                  then err delegation_invalid
                  else ok (any (delegation_gives dir) rows || known))
                (contains-add_if held roles d.role role)
            ∙ ap (λ b. if any is_void rows then err delegation_invalid else ok b)
                (or_insert (any (delegation_gives dir) rows) (delegation_gives dir d)
                  (contains roles role)))
    ]

    pub asks-roles_for :
        (principal : Text)
        → asks (roles_for principal scope at dir) ≡ (
            if any is_void (keep (λ d. d.to_principal_id == principal) dir.delegations)
            then err delegation_invalid
            else ok (
                any
                  (delegation_gives dir)
                  (keep (λ d. d.to_principal_id == principal) dir.delegations)
                || any assignment_gives (keep (λ a. a.principal_id == principal) dir.assignments)))
    unfolding roles_for
    asks-roles_for principal =
        let delegations = keep (λ d. d.to_principal_id == principal) dir.delegations in
        let assignments = keep (λ a. a.principal_id == principal) dir.assignments in
        delegated_contains delegations (direct_roles scope at assignments)
        ∙ ap
            (λ direct.
              if any is_void delegations
              then err delegation_invalid
              else ok (any (delegation_gives dir) delegations || direct))
            (direct_contains assignments)
