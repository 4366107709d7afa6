-- ===== src/Authority/Registry.antt =====
-- AuthorityRepository: principals, identity bindings, role assignments, delegations and the roles
-- that follow from them. A session is the directory that a call reads and the one that it leaves.
use administrative_orchestra.Authority.Records.{
  AuthorityError, Directory, IdentityBinding, PrincipalRow, assignment_conflict, binding_current,
  delegation_conflict, delegation_invalid, identity_bound_otherwise,
}
use administrative_orchestra.Base.{
  Bool, List, Option, Outcome, Text, Timestamp, [], any, err, find, if◌then◌else◌, insert, keep,
  leb, list_eq, lookup, ltb, nat_eq, none, not, ok, option_eq, set_add, some, string_eq, ◌&&◌, ◌++◌,
  ◌==◌, ◌>>=◌, ◌||◌, ◌∷◌,
}
use administrative_orchestra.Domain.{Delegation, Principal, RoleAssignment, assignment_current}

-- `_scope_matches`
abbrev pub scope_matches : Text → Text → Bool
scope_matches assignment_scope requested_scope =
    (assignment_scope == "*") || (assignment_scope == requested_scope)

unfoldable pub put_principal : Principal → Bool → Directory → Directory
put_principal p active dir = record dir {
  principals =
      insert p.principal_id
        (record { kind = p.kind; display_name = p.display_name; active = active }) dir.principals;
}

abbrev active_principal : Text → Option PrincipalRow → Option Principal
active_principal id none = none
active_principal id (some row) =
    if row.active
    then some (record { principal_id = id; kind = row.kind; display_name = row.display_name })
    else none

unfoldable pub get_principal : Text → Directory → Option Principal
get_principal id dir = active_principal id (lookup id dir.principals)

-- The rows that `put_identity_binding` and `resolve_identity` select.
abbrev pub bindings_of : Text → Text → Directory → List IdentityBinding
bindings_of provider subject dir =
    keep (λ b. (b.provider == provider) && (b.external_subject == subject)) dir.bindings

-- The loop returns or raises at its first row.
unfoldable pub put_identity_binding :
    IdentityBinding → Directory → Outcome AuthorityError (IdentityBinding × Directory)
put_identity_binding b dir = elim (bindings_of b.provider b.external_subject dir) [
  | [] ↦ ok (b, record dir { bindings = dir.bindings ++ b ∷ [] })
  | row ∷ rows ↦
      if not (row.principal_id == b.principal_id)
        || (not (row.valid_from == b.valid_from) || not (row.valid_until == b.valid_until))
      then err identity_bound_otherwise
      else ok (row, dir)
]

abbrev pub principal_of_only : List IdentityBinding → Directory → Option Principal
principal_of_only (b ∷ []) dir = get_principal b.principal_id dir
principal_of_only _ dir = none

-- No principal unless exactly one binding is current and its principal is active.
unfoldable pub resolve_identity : Text → Text → Timestamp → Directory → Option Principal
unfolding get_principal
resolve_identity provider subject at dir =
    principal_of_only (keep (λ b. binding_current b at) (bindings_of provider subject dir)) dir

abbrev pub assignment_beq : RoleAssignment → RoleAssignment → Bool
assignment_beq a b =
    (a.assignment_id == b.assignment_id)
    && ((a.principal_id == b.principal_id)
        && ((a.role == b.role)
            && ((a.organization_scope == b.organization_scope)
                && ((a.valid_from == b.valid_from) && (a.valid_until == b.valid_until)))))

abbrev pub delegation_beq : Delegation → Delegation → Bool
delegation_beq a b =
    (a.delegation_id == b.delegation_id)
    && ((a.from_principal_id == b.from_principal_id)
        && ((a.to_principal_id == b.to_principal_id)
            && ((a.role == b.role)
                && ((a.organization_scope == b.organization_scope)
                    && ((a.valid_from == b.valid_from) && (a.valid_until == b.valid_until))))))

unfoldable pub put_role_assignment :
    RoleAssignment → Directory → Outcome AuthorityError (RoleAssignment × Directory)
put_role_assignment a dir =
    elim (find (λ row. row.assignment_id == a.assignment_id) dir.assignments) [
      | none ↦ ok (a, record dir { assignments = dir.assignments ++ a ∷ [] })
      | some row ↦ if assignment_beq row a then ok (row, dir) else err assignment_conflict
    ]

-- `_delegation_from_row`: the constructor of `Delegation` validates the window of the row.
abbrev pub delegation_from_row : Delegation → Outcome AuthorityError Delegation
delegation_from_row row =
    if leb row.valid_until row.valid_from then err delegation_invalid else ok row

unfoldable pub put_delegation :
    Delegation → Directory → Outcome AuthorityError (Delegation × Directory)
put_delegation d dir = elim (find (λ row. row.delegation_id == d.delegation_id) dir.delegations) [
  | none ↦ ok (d, record dir { delegations = dir.delegations ++ d ∷ [] })
  | some row ↦ do
    restored ← delegation_from_row row
    if delegation_beq restored d then ok (restored, dir) else err delegation_conflict
]

unfoldable pub list_current_identity_bindings : Text → Timestamp → Directory → List IdentityBinding
list_current_identity_bindings principal at dir =
    keep (λ b. binding_current b at) (keep (λ b. b.principal_id == principal) dir.bindings)

unfoldable pub list_current_role_assignments : Text → Timestamp → Directory → List RoleAssignment
list_current_role_assignments principal at dir =
    keep (λ a. assignment_current a at) (keep (λ a. a.principal_id == principal) dir.assignments)

-- `[self._delegation_from_row(row) for row in rows]`
abbrev pub delegations_from_rows : List Delegation → Outcome AuthorityError (List Delegation)
delegations_from_rows [] = ok []
delegations_from_rows (row ∷ rows) = do
  d ← delegation_from_row row
  ds ← delegations_from_rows rows
  ok (d ∷ ds)

unfoldable pub list_current_delegations_involving :
    Text → Timestamp → Directory → Outcome AuthorityError (List Delegation)
list_current_delegations_involving principal at dir = do
  ds ← delegations_from_rows (
      keep (λ d. (d.from_principal_id == principal) || (d.to_principal_id == principal))
        dir.delegations)
  ok (keep (λ d. leb d.valid_from at && ltb at d.valid_until) ds)

-- An assignment that counts at a time and in a scope.
abbrev pub assignment_holds : Text → Timestamp → RoleAssignment → Bool
assignment_holds scope at a = assignment_current a at && scope_matches a.organization_scope scope

-- A delegation that counts at a time and in a scope.
abbrev pub delegation_holds : Text → Timestamp → Delegation → Bool
delegation_holds scope at d =
    (leb d.valid_from at && ltb at d.valid_until) && scope_matches d.organization_scope scope

-- The source of a delegation holds its role itself.
abbrev pub source_holds : Text → Timestamp → Directory → Delegation → Bool
source_holds scope at dir d =
    any (assignment_holds scope at)
      (keep (λ a. (a.principal_id == d.from_principal_id) && (a.role == d.role)) dir.assignments)

-- The set comprehension over the direct assignments.
unfoldable pub direct_roles : Text → Timestamp → List RoleAssignment → List Text
direct_roles scope at [] = []
direct_roles scope at (a ∷ as') =
    let rest = direct_roles scope at as' in
    if assignment_holds scope at a then set_add a.role rest else rest

-- The loop over the delegations, which adds to the set, and raises at a row with an invalid window.
unfoldable pub delegated_roles :
    Text → Timestamp → Directory → List Delegation → List Text → Outcome AuthorityError (List Text)
delegated_roles scope at dir [] roles = ok roles
delegated_roles scope at dir (row ∷ rows) roles = do
  d ← delegation_from_row row
  delegated_roles scope at dir rows (
      if delegation_holds scope at d && source_holds scope at dir d
      then set_add d.role roles
      else roles)

unfoldable pub roles_for : Text → Text → Timestamp → Directory → Outcome AuthorityError (List Text)
unfolding direct_roles delegated_roles
roles_for principal scope at dir =
    delegated_roles scope at dir (keep (λ d. d.to_principal_id == principal) dir.delegations)
      (direct_roles scope at (keep (λ a. a.principal_id == principal) dir.assignments))
