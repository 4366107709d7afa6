-- ===== src/Access/Permissions.antt =====
-- AdministrativePermission and the role sets of access_policy.py.
use administrative_orchestra.Base.{List, Text, [], ℕ, ◌∷◌}

pub data AdministrativePermission : Type 0 where
  case_read facts_read facts_attest commitment_attest facts_refresh_authoritative decision_submit :
      AdministrativePermission
  case_reassess policy_read policy_manage audit_read operations_read intake_review :
      AdministrativePermission
  investigation_read investigation_request investigation_review reopen_authorize :
      AdministrativePermission
  identity_manage dead_letter_read dead_letter_replay : AdministrativePermission

abbrev pub permission_index : AdministrativePermission → ℕ
permission_index AdministrativePermission.case_read = 0
permission_index AdministrativePermission.facts_read = 1
permission_index AdministrativePermission.facts_attest = 2
permission_index AdministrativePermission.commitment_attest = 3
permission_index AdministrativePermission.facts_refresh_authoritative = 4
permission_index AdministrativePermission.decision_submit = 5
permission_index AdministrativePermission.case_reassess = 6
permission_index AdministrativePermission.policy_read = 7
permission_index AdministrativePermission.policy_manage = 8
permission_index AdministrativePermission.audit_read = 9
permission_index AdministrativePermission.operations_read = 10
permission_index AdministrativePermission.intake_review = 11
permission_index AdministrativePermission.investigation_read = 12
permission_index AdministrativePermission.investigation_request = 13
permission_index AdministrativePermission.investigation_review = 14
permission_index AdministrativePermission.reopen_authorize = 15
permission_index AdministrativePermission.identity_manage = 16
permission_index AdministrativePermission.dead_letter_read = 17
permission_index AdministrativePermission.dead_letter_replay = 18

abbrev pub case_reader_roles : List Text
case_reader_roles =
    "hr_approver" ∷ "manager" ∷ "access_approver" ∷ "hr_operator" ∷ "administrative_operator"
    ∷ "administrative_auditor" ∷ "administrative_admin" ∷ []

abbrev pub fact_attest_roles : List Text
fact_attest_roles = "hr_operator" ∷ "administrative_operator" ∷ "administrative_admin" ∷ []

abbrev pub reassess_roles : List Text
reassess_roles = "administrative_operator" ∷ "administrative_admin" ∷ []

abbrev pub policy_read_roles : List Text
policy_read_roles =
    "policy_owner" ∷ "administrative_operator" ∷ "administrative_auditor" ∷ "administrative_admin"
    ∷ []

abbrev pub policy_manage_roles : List Text
policy_manage_roles = "policy_owner" ∷ "administrative_admin" ∷ []

abbrev pub audit_read_roles : List Text
audit_read_roles =
    "administrative_operator" ∷ "administrative_auditor" ∷ "administrative_admin" ∷ []

abbrev pub operations_read_roles : List Text
operations_read_roles =
    "administrative_operator" ∷ "administrative_auditor" ∷ "platform_operator"
    ∷ "administrative_admin" ∷ []

abbrev pub intake_review_roles : List Text
intake_review_roles = "administrative_operator" ∷ "administrative_admin" ∷ []

abbrev pub investigation_read_roles : List Text
investigation_read_roles =
    "administrative_operator" ∷ "administrative_auditor" ∷ "administrative_admin"
    ∷ "platform_operator" ∷ []

abbrev pub investigation_request_roles : List Text
investigation_request_roles = "administrative_operator" ∷ "administrative_admin" ∷ []

abbrev pub investigation_review_roles : List Text
investigation_review_roles = "administrative_operator" ∷ "administrative_admin" ∷ []

abbrev pub reopen_authorize_roles : List Text
reopen_authorize_roles = "administrative_operator" ∷ "administrative_admin" ∷ []

abbrev pub identity_manage_roles : List Text
identity_manage_roles = "administrative_admin" ∷ []

abbrev pub platform_ops_roles : List Text
platform_ops_roles = "platform_operator" ∷ "administrative_admin" ∷ []
