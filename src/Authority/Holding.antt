-- ===== src/Authority/Holding.antt =====
-- `AuthorityRepository.roles_for` (authority.py) against what it is to hold a role.
use administrative_orchestra.Authority.Records.{Directory, delegation_invalid}
use administrative_orchestra.Authority.Registry.{
  assignment_holds, delegation_holds, roles_for, scope_matches, source_holds,
}
use administrative_orchestra.Authority.Roles.{
  asks, asks-roles_for, asks_ok, assignment_gives, delegation_gives, is_void,
}
use administrative_orchestra.Base.{
  All, All-mp, Any, Bool, List, Option, Text, Timestamp, any, any-keep, any_iff, any_none, ap,
  arith, contains, err, false, if-err-ok, if◌then◌else◌, inl, inr, keep, list_eq, nat_eq, none,
  none_any, ok, option_eq, refl, some, str_beq_iff, string_eq, subst, sym, true, ◌&&◌, ◌<◌, ◌==◌,
  ◌||◌, ◌↔◌, ◌∙◌, ◌≡◌, ◌≤◌, ◌⊎◌,
}
use administrative_orchestra.Domain.{Delegation, RoleAssignment, within}

any-keep_iff :
    {A : Type 0} (q p : A → Bool) (P : A → Type 0)
    → ((x : A) → ((q x && p x) ≡ true) ↔ P x)
    → (xs : List A) → (any p (keep q xs) ≡ true) ↔ Any P xs
any-keep_iff q p P f xs =
    let both = any_iff (λ x. q x && p x) P f xs in
    (λ h. both.0 (sym (any-keep p q xs) ∙ h), λ m. any-keep p q xs ∙ both.1 m)

-- A scope covers what is asked for.
abbrev pub Covers : Text → Text → Type 0
Covers given asked = (given ≡ "*") ⊎ (given ≡ asked)

-- A time lies before an end, if there is one.
abbrev pub IsBefore : Timestamp → Option Timestamp → Type 0
IsBefore at none = Unit
IsBefore at (some until) = at < until

module _ (scope : Text) (at : Timestamp) where
  -- An assignment that gives a role to a principal, begun and not ended at the time, in the scope.
  pub record Holds (principal role : Text) (a : RoleAssignment) : Type 0 where
    pub holder : a.principal_id ≡ principal
    pub in_role : a.role ≡ role
    pub begun : a.valid_from ≤ at
    pub not_ended : IsBefore at a.valid_until
    pub in_scope : Covers a.organization_scope scope

  -- A delegation of a role to a principal, begun and not ended at the time, in the scope, by a
  -- principal to which an assignment gives the role.
  pub record Delegates (dir : Directory) (principal role : Text) (d : Delegation) : Type 0 where
    pub delegate : d.to_principal_id ≡ principal
    pub in_role : d.role ≡ role
    pub begun : d.valid_from ≤ at
    pub not_ended : at < d.valid_until
    pub in_scope : Covers d.organization_scope scope
    pub source : Any (Holds d.from_principal_id role) dir.assignments

  Covers-iff : (given : Text) → (scope_matches given scope ≡ true) ↔ Covers given scope
  Covers-iff given = (
    λ h. ground (arith, h, str_beq_iff given "*", str_beq_iff given scope),
    λ c. ground (arith, c, str_beq_iff given "*", str_beq_iff given scope),
  )

  IsBefore-iff :
      (from : Timestamp) (until : Option Timestamp)
      → (within from until at ≡ true) ↔ ((from ≤ at) × IsBefore at until)
  IsBefore-iff from none = (λ h. (ground (arith, h), tt), λ p. ground (arith, p.0))
  IsBefore-iff from (some until) =
      (λ h. (ground (arith, h), ground (arith, h)), λ p. ground (arith, p.0, p.1))

  and_iff : (a b : Bool) → ((a && b) ≡ true) ↔ ((a ≡ true) × (b ≡ true))
  and_iff true b = (λ h. (refl, h), λ p. p.1)
  and_iff false b = (λ h. cc, λ p. cc)

  Holds-parts :
      (principal role : Text) (a : RoleAssignment)
      → ((a.principal_id == principal ≡ true)
          × ((assignment_holds scope at a ≡ true) × (a.role ≡ role)))
        ↔ Holds principal role a
  Holds-parts principal role a =
      let covers = Covers-iff a.organization_scope in
      let before = IsBefore-iff a.valid_from a.valid_until in
      let both = and_iff (within a.valid_from a.valid_until at) _ in
      (
        λ h.
            let (w, s) = both.0 h.1.0 in
            record {
              holder = (str_beq_iff a.principal_id principal).0 h.0;
              in_role = h.1.1;
              begun = (before.0 w).0;
              not_ended = (before.0 w).1;
              in_scope = covers.0 s;
            },
        λ k. (
          (str_beq_iff a.principal_id principal).1 k.holder,
          (both.1 (before.1 (k.begun, k.not_ended), covers.1 k.in_scope), k.in_role),
        ),
      )

  direct_iff :
      (principal role : Text) (a : RoleAssignment)
      → (((a.principal_id == principal) && assignment_gives scope at role a) ≡ true)
        ↔ Holds principal role a
  direct_iff principal role a =
      let parts = Holds-parts principal role a in
      let outer = and_iff (a.principal_id == principal) (assignment_gives scope at role a) in
      let inner = and_iff (assignment_holds scope at a) (role == a.role) in
      let same = str_beq_iff role a.role in
      (
        λ h. let (p, g) = outer.0 h in let (k, r) = inner.0 g in parts.0 (p, (k, sym (same.0 r))),
        λ k. let (p, (h, r)) = parts.1 k in outer.1 (p, inner.1 (h, same.1 (sym r))),
      )

  source_iff :
      (principal role : Text) (a : RoleAssignment)
      → ((((a.principal_id == principal) && (a.role == role)) && assignment_holds scope at a)
          ≡ true)
        ↔ Holds principal role a
  source_iff principal role a =
      let parts = Holds-parts principal role a in
      let outer = and_iff ((a.principal_id == principal) && (a.role == role)) _ in
      let inner = and_iff (a.principal_id == principal) (a.role == role) in
      let same = str_beq_iff a.role role in
      (
        λ h. let (g, k) = outer.0 h in let (p, r) = inner.0 g in parts.0 (p, (k, same.0 r)),
        λ k. let (p, (h, r)) = parts.1 k in outer.1 (inner.1 (p, same.1 r), h),
      )

  module _ (dir : Directory) where
    sources_iff :
        (role : Text) (d : Delegation)
        → d.role ≡ role
        → (source_holds scope at dir d ≡ true)
          ↔ Any (Holds d.from_principal_id role) dir.assignments
    sources_iff role d r =
        subst
          (λ role.
            (source_holds scope at dir d ≡ true)
            ↔ Any (Holds d.from_principal_id role) dir.assignments)
          r
          (any-keep_iff (λ a. (a.principal_id == d.from_principal_id) && (a.role == d.role))
            (assignment_holds scope at) (Holds d.from_principal_id d.role)
            (source_iff d.from_principal_id d.role) dir.assignments)

    delegated_iff :
        (principal role : Text) (d : Delegation)
        → (((d.to_principal_id == principal) && delegation_gives scope at role dir d) ≡ true)
          ↔ Delegates dir principal role d
    delegated_iff principal role d =
        let outer = and_iff (d.to_principal_id == principal) _ in
        let inner =
          and_iff (delegation_holds scope at d && source_holds scope at dir d) (role == d.role) in
        let held = and_iff (delegation_holds scope at d) (source_holds scope at dir d) in
        let both = and_iff (within d.valid_from (some d.valid_until) at) _ in
        let before = IsBefore-iff d.valid_from (some d.valid_until) in
        let covers = Covers-iff d.organization_scope in
        let same = str_beq_iff role d.role in
        let to = str_beq_iff d.to_principal_id principal in
        (
          λ h.
              let (p, g) = outer.0 h in
              let (k, r) = inner.0 g in
              let (c, source) = held.0 k in
              let (w, s) = both.0 c in
              record {
                delegate = to.0 p;
                in_role = sym (same.0 r);
                begun = (before.0 w).0;
                not_ended = (before.0 w).1;
                in_scope = covers.0 s;
                source = (sources_iff role d (sym (same.0 r))).0 source;
              },
          λ k. outer.1 (
            to.1 k.delegate,
            inner.1 (
              held.1 (
                both.1 (before.1 (k.begun, k.not_ended), covers.1 k.in_scope),
                (sources_iff role d k.in_role).1 k.source,
              ),
              same.1 (sym k.in_role),
            ),
          ),
        )

    or_iff : (a b : Bool) → ((a || b) ≡ true) ↔ ((a ≡ true) ⊎ (b ≡ true))
    or_iff a b = (λ h. ground (arith, h), λ h. ground (arith, h))

    -- Where the roles of a principal can be read, it has a role exactly if an assignment that has
    -- begun and not ended, in a scope that covers the one asked for, gives it the role, or a
    -- delegation that has begun and not ended, in such a scope, gives it the role from a principal
    -- to which such an assignment gives it.
    pub contains-roles_for :
        (principal role : Text) {roles : List Text}
        → roles_for principal scope at dir ≡ ok roles
        → (contains roles role ≡ true) ↔ (
            Any (Holds principal role) dir.assignments
            ⊎ Any (Delegates dir principal role) dir.delegations)
    contains-roles_for principal role {roles} h =
        let direct =
          any-keep_iff (λ a. a.principal_id == principal) (assignment_gives scope at role)
            (Holds principal role) (direct_iff principal role) dir.assignments in
        let granted =
          any-keep_iff (λ d. d.to_principal_id == principal) (delegation_gives scope at role dir)
            (Delegates dir principal role) (delegated_iff principal role) dir.delegations in
        let answer =
          (if-err-ok _ _ (contains roles role) delegation_invalid
            (sym (asks-roles_for scope at role dir principal) ∙ ap (asks scope at role) h)).1 in
        let split = or_iff _ _ in
        (
          λ c. elim (split.0 (answer ∙ c)) [ inl g ↦ inr (granted.0 g) | inr d ↦ inl (direct.0 d) ],
          λ s.
              sym answer
              ∙ split.1 (elim s [ inl d ↦ inr (direct.1 d) | inr g ↦ inl (granted.1 g) ]),
        )

    -- The roles of a principal can be read exactly if every delegation to it starts before it ends,
    -- at whatever time and in whatever scope they are asked for.
    pub roles_for-returns :
        (principal : Text)
        → ((roles : List Text) × (roles_for principal scope at dir ≡ ok roles))
          ↔ All (λ d. d.to_principal_id ≡ principal → d.valid_from < d.valid_until) dir.delegations
    roles_for-returns principal = (
      λ r.
          let (roles, h) = r in
          let proper =
            (if-err-ok _ _ (contains roles "") delegation_invalid
              (sym (asks-roles_for scope at "" dir principal) ∙ ap (asks scope at "") h)).0 in
          All-mp _ _ dir.delegations
            (λ d v to. ground (arith, v, str_beq_iff d.to_principal_id principal))
            (none_any _ dir.delegations (
              sym (
                any-keep (is_void scope at "") (λ d. d.to_principal_id == principal)
                  dir.delegations)
              ∙ proper)),
      λ proper.
          let answer =
            any (delegation_gives scope at "" dir)
              (keep (λ d. d.to_principal_id == principal) dir.delegations)
            || any (assignment_gives scope at "")
                (keep (λ a. a.principal_id == principal) dir.assignments) in
          asks_ok scope at "" (roles_for principal scope at dir) answer (
            asks-roles_for scope at "" dir principal
            ∙ ap (λ void. if void then err delegation_invalid else ok answer)
                (any-keep (is_void scope at "") (λ d. d.to_principal_id == principal)
                    dir.delegations
                  ∙ any_none _ dir.delegations (
                      All-mp _ _ dir.delegations
                        (λ d v. ground (arith, v, str_beq_iff d.to_principal_id principal))
                        proper))),
    )
