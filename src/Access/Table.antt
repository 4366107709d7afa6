-- ===== src/Access/Table.antt =====
-- The permissions of access_policy.py by role, as a table that is written apart from its tests.
use administrative_orchestra.Access.Checks.{is_requester}
use administrative_orchestra.Access.Permissions.{AdministrativePermission, permission_index}
use administrative_orchestra.Base.{
  Bool, List, Option, Text, [], any, nat_beq, nat_eq, option_eq, string_eq, ◌&&◌, ◌==◌, ◌||◌, ◌∷◌,
}
use administrative_orchestra.Domain.{AdministrativeCase}

abbrev pub listed : AdministrativePermission → List AdministrativePermission → Bool
listed permission = any (λ p. nat_beq (permission_index permission) (permission_index p))

-- Each role with the permissions that it gives, besides the submission of a decision, which every role
-- gives.
abbrev pub role_table : List (Text × List AdministrativePermission)
role_table =
    ("hr_approver", AdministrativePermission.case_read ∷ AdministrativePermission.facts_read ∷ [])
    ∷ ("manager", AdministrativePermission.case_read ∷ AdministrativePermission.facts_read ∷ [])
    ∷ (
      "access_approver",
      AdministrativePermission.case_read ∷ AdministrativePermission.facts_read ∷ [],
    )
    ∷ (
      "hr_operator",
      AdministrativePermission.case_read ∷ AdministrativePermission.facts_read
          ∷ AdministrativePermission.facts_attest ∷ AdministrativePermission.commitment_attest
          ∷ AdministrativePermission.facts_refresh_authoritative ∷ [],
    )
    ∷ (
      "policy_owner",
      AdministrativePermission.policy_read ∷ AdministrativePermission.policy_manage ∷ [],
    )
    ∷ (
      "administrative_operator",
      AdministrativePermission.case_read ∷ AdministrativePermission.facts_read
          ∷ AdministrativePermission.facts_attest ∷ AdministrativePermission.commitment_attest
          ∷ AdministrativePermission.facts_refresh_authoritative
          ∷ AdministrativePermission.case_reassess ∷ AdministrativePermission.policy_read
          ∷ AdministrativePermission.audit_read ∷ AdministrativePermission.operations_read
          ∷ AdministrativePermission.intake_review ∷ AdministrativePermission.investigation_read
          ∷ AdministrativePermission.investigation_request
          ∷ AdministrativePermission.investigation_review
          ∷ AdministrativePermission.reopen_authorize ∷ [],
    )
    ∷ (
      "administrative_auditor",
      AdministrativePermission.case_read ∷ AdministrativePermission.facts_read
          ∷ AdministrativePermission.policy_read ∷ AdministrativePermission.audit_read
          ∷ AdministrativePermission.operations_read ∷ AdministrativePermission.investigation_read
          ∷ [],
    )
    ∷ (
      "platform_operator",
      AdministrativePermission.operations_read ∷ AdministrativePermission.investigation_read
          ∷ AdministrativePermission.dead_letter_read ∷ AdministrativePermission.dead_letter_replay
          ∷ [],
    )
    ∷ (
      "administrative_admin",
      AdministrativePermission.case_read ∷ AdministrativePermission.facts_read
          ∷ AdministrativePermission.facts_attest ∷ AdministrativePermission.commitment_attest
          ∷ AdministrativePermission.facts_refresh_authoritative
          ∷ AdministrativePermission.case_reassess ∷ AdministrativePermission.policy_read
          ∷ AdministrativePermission.policy_manage ∷ AdministrativePermission.audit_read
          ∷ AdministrativePermission.operations_read ∷ AdministrativePermission.intake_review
          ∷ AdministrativePermission.investigation_read
          ∷ AdministrativePermission.investigation_request
          ∷ AdministrativePermission.investigation_review
          ∷ AdministrativePermission.reopen_authorize ∷ AdministrativePermission.identity_manage
          ∷ AdministrativePermission.dead_letter_read ∷ AdministrativePermission.dead_letter_replay
          ∷ [],
    )
    ∷ []

abbrev pub gives : Text → AdministrativePermission → Bool
gives role permission = any (λ row. listed permission row.1 && (role == row.0)) role_table

-- What a requester may do with the own case without any role.
abbrev pub requester_permissions : List AdministrativePermission
requester_permissions =
    AdministrativePermission.case_read ∷ AdministrativePermission.facts_read
    ∷ AdministrativePermission.commitment_attest ∷ []

abbrev pub submits : AdministrativePermission → Bool
submits permission = listed permission (AdministrativePermission.decision_submit ∷ [])

abbrev pub grants : AdministrativePermission → Text → Bool
grants permission role = submits permission || gives role permission

abbrev pub by_matrix :
    AdministrativePermission → Option AdministrativeCase → Text → List Text → Bool
by_matrix permission c principal_id roles =
    (listed permission requester_permissions && is_requester c principal_id)
    || any (grants permission) roles
