-- ===== src/Access/Checks.antt =====
-- AdministrativeAccessPolicy of access_policy.py.
use administrative_orchestra.Access.Permissions.{
  AdministrativePermission, audit_read_roles, case_reader_roles, fact_attest_roles,
  identity_manage_roles, intake_review_roles, investigation_read_roles, investigation_request_roles,
  investigation_review_roles, operations_read_roles, platform_ops_roles, policy_manage_roles,
  policy_read_roles, reassess_roles, reopen_authorize_roles,
}
use administrative_orchestra.Authority.{AuthorityError, Directory, get_principal, roles_for}
use administrative_orchestra.Base.{
  Bool, List, Option, Outcome, Text, Timestamp, any, contains, false, if◌then◌else◌, is_blank,
  is_empty, list_eq, map_err, nat_eq, none, not, ok, option_eq, raise_if, some, string_eq, ◌==◌,
  ◌>>=◌, ◌||◌,
}
use administrative_orchestra.Domain.{
  AdministrativeCase, FactSnapshot, Value, get_value, int_beq, is_some, pos,
}

-- `bool(roles.intersection(allowed))`
abbrev pub intersects : List Text → List Text → Bool
intersects roles allowed = any (contains allowed) roles

-- `bool(case and case.requester_principal_id == principal_id)`
abbrev pub is_requester : Option AdministrativeCase → Text → Bool
is_requester none principal_id = false
is_requester (some c) principal_id = c.requester_principal_id == principal_id

-- The chain of tests on the permission.
unfoldable pub permits :
    AdministrativePermission → Option AdministrativeCase → Text → List Text → Bool
permits AdministrativePermission.case_read c principal_id roles =
    is_requester c principal_id || intersects roles case_reader_roles
permits AdministrativePermission.facts_read c principal_id roles =
    is_requester c principal_id || intersects roles case_reader_roles
permits AdministrativePermission.commitment_attest c principal_id roles =
    is_requester c principal_id || intersects roles fact_attest_roles
permits AdministrativePermission.decision_submit c principal_id roles = not (is_empty roles)
permits AdministrativePermission.facts_attest c principal_id roles =
    intersects roles fact_attest_roles
permits AdministrativePermission.facts_refresh_authoritative c principal_id roles =
    intersects roles fact_attest_roles
permits AdministrativePermission.case_reassess c principal_id roles =
    intersects roles reassess_roles
permits AdministrativePermission.policy_read c principal_id roles =
    intersects roles policy_read_roles
permits AdministrativePermission.policy_manage c principal_id roles =
    intersects roles policy_manage_roles
permits AdministrativePermission.audit_read c principal_id roles = intersects roles audit_read_roles
permits AdministrativePermission.operations_read c principal_id roles =
    intersects roles operations_read_roles
permits AdministrativePermission.intake_review c principal_id roles =
    intersects roles intake_review_roles
permits AdministrativePermission.investigation_read c principal_id roles =
    intersects roles investigation_read_roles
permits AdministrativePermission.investigation_request c principal_id roles =
    intersects roles investigation_request_roles
permits AdministrativePermission.investigation_review c principal_id roles =
    intersects roles investigation_review_roles
permits AdministrativePermission.reopen_authorize c principal_id roles =
    intersects roles reopen_authorize_roles
permits AdministrativePermission.identity_manage c principal_id roles =
    intersects roles identity_manage_roles
permits AdministrativePermission.dead_letter_read c principal_id roles =
    intersects roles platform_ops_roles
permits AdministrativePermission.dead_letter_replay c principal_id roles =
    intersects roles platform_ops_roles

-- `bool(value)`
abbrev pub truthy : Value → Bool
truthy Value.null = false
truthy (Value.text t) = not (is_blank t)
truthy (Value.texts ts) = not (is_empty ts)
truthy (Value.flag b) = b
truthy (Value.number n) = not (int_beq n (pos 0))

pub data AccessError : Type 0 where
  access_denied : AccessError
  roles_unreadable : AuthorityError → AccessError

module _ (str : Value → Text) where
  -- `_case_scope`; `str` is Python's, on a value that is not a text.
  abbrev pub department_scope : Value → Text
  department_scope (Value.text t) = if is_blank t then "*" else t
  department_scope v = if truthy v then str v else "*"

  abbrev pub snapshot_scope : Option FactSnapshot → Text
  snapshot_scope none = "*"
  snapshot_scope (some s) = department_scope (get_value "department_ref" s.facts)

  unfoldable pub case_scope : Option AdministrativeCase → Text
  case_scope none = "*"
  case_scope (some c) = snapshot_scope c.fact_snapshot

  -- `organization_scope or (_case_scope(case) if case is not None else "*")`
  unfoldable pub scope_of : Option Text → Option AdministrativeCase → Text
  scope_of none c = case_scope c
  scope_of (some s) c = if is_blank s then case_scope c else s

  -- `AdministrativeAccessPolicy.allows` at the time `now`.
  unfoldable pub allows :
      Timestamp
      → Text
      → AdministrativePermission
      → Option AdministrativeCase
      → Option Text
      → Directory
      → Outcome AuthorityError Bool
  allows now principal_id permission c organization_scope dir =
      if not (is_some (get_principal principal_id dir)) then ok false else (do
        roles ← roles_for principal_id (scope_of organization_scope c) now dir
        ok (permits permission c principal_id roles))

  -- `AdministrativeAccessPolicy.require`
  unfoldable pub require :
      Timestamp
      → Text
      → AdministrativePermission
      → Option AdministrativeCase
      → Option Text
      → Directory
      → Outcome AccessError (Unit {0})
  require now principal_id permission c organization_scope dir = do
    allowed ← map_err roles_unreadable (allows now principal_id permission c organization_scope dir)
    raise_if (not allowed) access_denied
