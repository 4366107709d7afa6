-- ===== src/Access/Grants.antt =====
-- Each role set of access_policy.py against the table.
use administrative_orchestra.Access.Permissions.{
  AdministrativePermission, audit_read_roles, case_reader_roles, fact_attest_roles,
  identity_manage_roles, intake_review_roles, investigation_read_roles, investigation_request_roles,
  investigation_review_roles, operations_read_roles, platform_ops_roles, policy_manage_roles,
  policy_read_roles, reassess_roles, reopen_authorize_roles,
}
use administrative_orchestra.Access.Table.{grants}
use administrative_orchestra.Base.{
  Bool, List, Text, [], any, contains, false, is_empty, nat_eq, not, option_eq, refl, string_eq,
  true, ◌==◌, ◌||◌, ◌∷◌, ◌≡◌,
}

swap : (a b c d : Bool) → (a || (b || (c || (d || false)))) ≡ (a || (b || (d || (c || false))))
swap true b c d = refl
swap false true c d = refl
swap false false true true = refl
swap false false true false = refl
swap false false false true = refl
swap false false false false = refl

pub submits_any : (roles : List Text) → not (is_empty roles) ≡ any (λ role. true) roles
submits_any [] = refl
submits_any (role ∷ roles) = refl

pub case_read_grants :
    (role : Text) → contains case_reader_roles role ≡ grants AdministrativePermission.case_read role
case_read_grants role = refl

pub facts_read_grants :
    (role : Text)
    → contains case_reader_roles role ≡ grants AdministrativePermission.facts_read role
facts_read_grants role = refl

pub commitment_attest_grants :
    (role : Text)
    → contains fact_attest_roles role ≡ grants AdministrativePermission.commitment_attest role
commitment_attest_grants role = refl

pub facts_attest_grants :
    (role : Text)
    → contains fact_attest_roles role ≡ grants AdministrativePermission.facts_attest role
facts_attest_grants role = refl

pub facts_refresh_authoritative_grants :
    (role : Text)
    → contains fact_attest_roles role
      ≡ grants AdministrativePermission.facts_refresh_authoritative role
facts_refresh_authoritative_grants role = refl

pub case_reassess_grants :
    (role : Text)
    → contains reassess_roles role ≡ grants AdministrativePermission.case_reassess role
case_reassess_grants role = refl

pub policy_read_grants :
    (role : Text)
    → contains policy_read_roles role ≡ grants AdministrativePermission.policy_read role
policy_read_grants role = refl

pub policy_manage_grants :
    (role : Text)
    → contains policy_manage_roles role ≡ grants AdministrativePermission.policy_manage role
policy_manage_grants role = refl

pub audit_read_grants :
    (role : Text) → contains audit_read_roles role ≡ grants AdministrativePermission.audit_read role
audit_read_grants role = refl

pub operations_read_grants :
    (role : Text)
    → contains operations_read_roles role ≡ grants AdministrativePermission.operations_read role
operations_read_grants role = refl

pub intake_review_grants :
    (role : Text)
    → contains intake_review_roles role ≡ grants AdministrativePermission.intake_review role
intake_review_grants role = refl

pub investigation_read_grants :
    (role : Text)
    → contains investigation_read_roles role
      ≡ grants AdministrativePermission.investigation_read role
investigation_read_grants role =
    swap (role == "administrative_operator") (role == "administrative_auditor")
      (role == "administrative_admin") (role == "platform_operator")

pub investigation_request_grants :
    (role : Text)
    → contains investigation_request_roles role
      ≡ grants AdministrativePermission.investigation_request role
investigation_request_grants role = refl

pub investigation_review_grants :
    (role : Text)
    → contains investigation_review_roles role
      ≡ grants AdministrativePermission.investigation_review role
investigation_review_grants role = refl

pub reopen_authorize_grants :
    (role : Text)
    → contains reopen_authorize_roles role ≡ grants AdministrativePermission.reopen_authorize role
reopen_authorize_grants role = refl

pub identity_manage_grants :
    (role : Text)
    → contains identity_manage_roles role ≡ grants AdministrativePermission.identity_manage role
identity_manage_grants role = refl

pub dead_letter_read_grants :
    (role : Text)
    → contains platform_ops_roles role ≡ grants AdministrativePermission.dead_letter_read role
dead_letter_read_grants role = refl

pub dead_letter_replay_grants :
    (role : Text)
    → contains platform_ops_roles role ≡ grants AdministrativePermission.dead_letter_replay role
dead_letter_replay_grants role = refl

pub decision_submit_grants :
    (role : Text) → true ≡ grants AdministrativePermission.decision_submit role
decision_submit_grants role = refl
