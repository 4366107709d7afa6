-- ===== src/Access/Matrix.antt =====
-- The decision of access_policy.py by the table.
use administrative_orchestra.Access.Checks.{allows, is_requester, permits, scope_of}
use administrative_orchestra.Access.Grants.{
  audit_read_grants, case_read_grants, case_reassess_grants, commitment_attest_grants,
  dead_letter_read_grants, dead_letter_replay_grants, decision_submit_grants, facts_attest_grants,
  facts_read_grants, facts_refresh_authoritative_grants, identity_manage_grants,
  intake_review_grants, investigation_read_grants, investigation_request_grants,
  investigation_review_grants, operations_read_grants, policy_manage_grants, policy_read_grants,
  reopen_authorize_grants, submits_any,
}
use administrative_orchestra.Access.Permissions.{
  AdministrativePermission, audit_read_roles, case_reader_roles, fact_attest_roles,
  identity_manage_roles, intake_review_roles, investigation_read_roles, investigation_request_roles,
  investigation_review_roles, operations_read_roles, platform_ops_roles, policy_manage_roles,
  policy_read_roles, reassess_roles, reopen_authorize_roles,
}
use administrative_orchestra.Access.Table.{by_matrix, grants, listed, requester_permissions}
use administrative_orchestra.Authority.{AuthorityError, Directory, get_principal, roles_for}
use administrative_orchestra.Base.{
  Bool-cases, List, Option, Outcome, Text, Timestamp, any_cong, ap, contains, err, false,
  if◌then◌else◌, inl, inr, list_eq, nat_eq, ok, option_eq, refl, string_eq, true, ◌&&◌, ◌>>=◌, ◌||◌,
  ◌∙◌, ◌≡◌,
}
use administrative_orchestra.Domain.{AdministrativeCase, Value, is_some}

permits_matrix :
    (permission : AdministrativePermission) (c : Option AdministrativeCase) (principal_id : Text)
    (roles : List Text)
    → permits permission c principal_id roles ≡ by_matrix permission c principal_id roles
unfolding permits
permits_matrix AdministrativePermission.case_read c principal_id roles =
    ap
      (λ b.
        (listed AdministrativePermission.case_read requester_permissions
          && is_requester c principal_id)
        || b)
      (any_cong (contains case_reader_roles) (grants AdministrativePermission.case_read) roles
        case_read_grants)
permits_matrix AdministrativePermission.facts_read c principal_id roles =
    ap
      (λ b.
        (listed AdministrativePermission.facts_read requester_permissions
          && is_requester c principal_id)
        || b)
      (any_cong (contains case_reader_roles) (grants AdministrativePermission.facts_read) roles
        facts_read_grants)
permits_matrix AdministrativePermission.commitment_attest c principal_id roles =
    ap
      (λ b.
        (listed AdministrativePermission.commitment_attest requester_permissions
          && is_requester c principal_id)
        || b)
      (any_cong (contains fact_attest_roles) (grants AdministrativePermission.commitment_attest)
        roles commitment_attest_grants)
permits_matrix AdministrativePermission.facts_attest c principal_id roles =
    ap
      (λ b.
        (listed AdministrativePermission.facts_attest requester_permissions
          && is_requester c principal_id)
        || b)
      (any_cong (contains fact_attest_roles) (grants AdministrativePermission.facts_attest) roles
        facts_attest_grants)
permits_matrix AdministrativePermission.facts_refresh_authoritative c principal_id roles =
    ap
      (λ b.
        (listed AdministrativePermission.facts_refresh_authoritative requester_permissions
          && is_requester c principal_id)
        || b)
      (any_cong (contains fact_attest_roles)
        (grants AdministrativePermission.facts_refresh_authoritative) roles
        facts_refresh_authoritative_grants)
permits_matrix AdministrativePermission.case_reassess c principal_id roles =
    ap
      (λ b.
        (listed AdministrativePermission.case_reassess requester_permissions
          && is_requester c principal_id)
        || b)
      (any_cong (contains reassess_roles) (grants AdministrativePermission.case_reassess) roles
        case_reassess_grants)
permits_matrix AdministrativePermission.policy_read c principal_id roles =
    ap
      (λ b.
        (listed AdministrativePermission.policy_read requester_permissions
          && is_requester c principal_id)
        || b)
      (any_cong (contains policy_read_roles) (grants AdministrativePermission.policy_read) roles
        policy_read_grants)
permits_matrix AdministrativePermission.policy_manage c principal_id roles =
    ap
      (λ b.
        (listed AdministrativePermission.policy_manage requester_permissions
          && is_requester c principal_id)
        || b)
      (any_cong (contains policy_manage_roles) (grants AdministrativePermission.policy_manage) roles
        policy_manage_grants)
permits_matrix AdministrativePermission.audit_read c principal_id roles =
    ap
      (λ b.
        (listed AdministrativePermission.audit_read requester_permissions
          && is_requester c principal_id)
        || b)
      (any_cong (contains audit_read_roles) (grants AdministrativePermission.audit_read) roles
        audit_read_grants)
permits_matrix AdministrativePermission.operations_read c principal_id roles =
    ap
      (λ b.
        (listed AdministrativePermission.operations_read requester_permissions
          && is_requester c principal_id)
        || b)
      (any_cong (contains operations_read_roles) (grants AdministrativePermission.operations_read)
        roles operations_read_grants)
permits_matrix AdministrativePermission.intake_review c principal_id roles =
    ap
      (λ b.
        (listed AdministrativePermission.intake_review requester_permissions
          && is_requester c principal_id)
        || b)
      (any_cong (contains intake_review_roles) (grants AdministrativePermission.intake_review) roles
        intake_review_grants)
permits_matrix AdministrativePermission.investigation_read c principal_id roles =
    ap
      (λ b.
        (listed AdministrativePermission.investigation_read requester_permissions
          && is_requester c principal_id)
        || b)
      (any_cong (contains investigation_read_roles)
        (grants AdministrativePermission.investigation_read) roles investigation_read_grants)
permits_matrix AdministrativePermission.investigation_request c principal_id roles =
    ap
      (λ b.
        (listed AdministrativePermission.investigation_request requester_permissions
          && is_requester c principal_id)
        || b)
      (any_cong (contains investigation_request_roles)
        (grants AdministrativePermission.investigation_request) roles investigation_request_grants)
permits_matrix AdministrativePermission.investigation_review c principal_id roles =
    ap
      (λ b.
        (listed AdministrativePermission.investigation_review requester_permissions
          && is_requester c principal_id)
        || b)
      (any_cong (contains investigation_review_roles)
        (grants AdministrativePermission.investigation_review) roles investigation_review_grants)
permits_matrix AdministrativePermission.reopen_authorize c principal_id roles =
    ap
      (λ b.
        (listed AdministrativePermission.reopen_authorize requester_permissions
          && is_requester c principal_id)
        || b)
      (any_cong (contains reopen_authorize_roles) (grants AdministrativePermission.reopen_authorize)
        roles reopen_authorize_grants)
permits_matrix AdministrativePermission.identity_manage c principal_id roles =
    ap
      (λ b.
        (listed AdministrativePermission.identity_manage requester_permissions
          && is_requester c principal_id)
        || b)
      (any_cong (contains identity_manage_roles) (grants AdministrativePermission.identity_manage)
        roles identity_manage_grants)
permits_matrix AdministrativePermission.dead_letter_read c principal_id roles =
    ap
      (λ b.
        (listed AdministrativePermission.dead_letter_read requester_permissions
          && is_requester c principal_id)
        || b)
      (any_cong (contains platform_ops_roles) (grants AdministrativePermission.dead_letter_read)
        roles dead_letter_read_grants)
permits_matrix AdministrativePermission.dead_letter_replay c principal_id roles =
    ap
      (λ b.
        (listed AdministrativePermission.dead_letter_replay requester_permissions
          && is_requester c principal_id)
        || b)
      (any_cong (contains platform_ops_roles) (grants AdministrativePermission.dead_letter_replay)
        roles dead_letter_replay_grants)
permits_matrix AdministrativePermission.decision_submit c principal_id roles =
    submits_any roles
    ∙ any_cong (λ role. true) (grants AdministrativePermission.decision_submit) roles
        decision_submit_grants

-- An unknown or inactive principal is allowed nothing. An active one is allowed an action exactly if
-- either it asks for one of three permissions on a case that it requested, or one of the roles that
-- it holds now in the scope of the request gives the permission by the table; every role gives the
-- submission of a decision. Where its roles cannot be read, the check raises.
pub allows_lem :
    (str : Value → Text) (now : Timestamp) (principal_id : Text)
    (permission : AdministrativePermission) (c : Option AdministrativeCase) (scope : Option Text)
    (dir : Directory)
    → allows str now principal_id permission c scope dir ≡ (
        if is_some (get_principal principal_id dir)
        then (do
          roles ← roles_for principal_id (scope_of str scope c) now dir
          ok (by_matrix permission c principal_id roles))
        else ok false)
unfolding allows
allows_lem str now principal_id permission c scope dir =
    elim (Bool-cases (is_some (get_principal principal_id dir))) [
      | inl known ↦ rw known (by_roles (roles_for principal_id (scope_of str scope c) now dir))
      | inr unknown ↦ rw unknown refl
    ]
  where
    by_roles :
        (asked : Outcome AuthorityError (List Text))
        → (asked >>= (λ roles. ok (permits permission c principal_id roles)))
          ≡ (asked >>= (λ roles. ok (by_matrix permission c principal_id roles)))
    by_roles (ok roles) = ap ok (permits_matrix permission c principal_id roles)
    by_roles (err e) = refl
