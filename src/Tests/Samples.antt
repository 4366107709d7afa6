-- ===== src/Tests/Samples.antt =====
-- Sample records.
use administrative_orchestra.Authority.{Directory}
use administrative_orchestra.Base.{List, Text, Timestamp, Uuid, [], none, some, true, ◌∷◌}
use administrative_orchestra.Cases.Lifecycle.{Action}
use administrative_orchestra.Domain.{
  AdministrativeCase, AdministrativeRequest, AuthorityClass, CaseStatus, Decision,
  DecisionDisposition, ExecutionAuthorization, PolicyRef, PrincipalKind, RoleAssignment,
}
use administrative_orchestra.Policy.{PolicyDisposition, PolicyEvaluation}

abbrev pub policy : PolicyRef
policy = record {
  policy_id = "employee-onboarding";
  version = "v1";
  owner = "administrative-orchestrator";
  effective_from = 10;
  effective_until = none;
}

abbrev pub request : AdministrativeRequest
request = record {
  request_id = 1;
  requester_principal_id = "mallory";
  channel = "feishu";
  intent = "onboard";
  received_at = 20;
  source_ref = none;
}

abbrev pub opened : AdministrativeCase
opened = record {
  case_id = 7;
  case_kind = "employee-onboarding";
  requester_principal_id = "mallory";
  subject_ref = "emp-1";
  status = CaseStatus.received;
  version = 1;
  authority_epoch = 1;
  fact_snapshot = none;
  policy_ref = none;
  evidence = [];
  reopen_reason = none;
  created_at = 20;
  updated_at = 20;
}

abbrev pub needs_decision : PolicyEvaluation
needs_decision = record {
  policy_ref = policy;
  disposition = PolicyDisposition.human_decision_required;
  reason = "employment creation requires the configured current approval rule";
  missing_facts = [];
  required_decision_roles = "manager" ∷ "access_approver" ∷ [];
  require_distinct_decision_principals = true;
  allowed_effects = [];
  reopen_reason = none;
}

abbrev pub decision_of : Uuid → Text → Text → Decision
decision_of id principal role = record {
  decision_id = id;
  case_id = 7;
  case_version = 3;
  authority_epoch = 2;
  principal_id = principal;
  decision_role = some role;
  disposition = DecisionDisposition.approve;
  rationale = "fine";
  policy_ref = policy;
  decided_at = 50;
}

abbrev pub approval : Decision
approval = decision_of 40 "alice" "manager"

-- Authorized in three steps.
abbrev pub to_authorized : List (Timestamp × Action)
to_authorized =
    (30, Action.start_evaluation)
    ∷ (31, Action.evaluation needs_decision)
    ∷ (50, Action.decision approval true)
    ∷ []

-- The case after those steps.
abbrev pub authorized : AdministrativeCase
authorized = record opened {
  status = CaseStatus.authorized;
  version = 4;
  authority_epoch = 2;
  policy_ref = some policy;
  updated_at = 50;
}

abbrev pub authorization : ExecutionAuthorization
authorization = record {
  authorization_id = 60;
  case_id = 7;
  case_version = 4;
  authority_epoch = 2;
  decision_id = some 40;
  approval_satisfaction_id = none;
  issuer_principal_id = "administrative-orchestrator";
  target_system = "hris";
  subject_ref = "emp-1";
  allowed_operations = "employee.create" ∷ [];
  authority_class = AuthorityClass.employment;
  policy_ref = policy;
  issued_at = 55;
  expires_at = some 100;
  revoked_at = none;
}

abbrev pub role_assignment : Uuid → Text → Text → RoleAssignment
role_assignment id principal role = record {
  assignment_id = id;
  principal_id = principal;
  role = role;
  organization_scope = "*";
  valid_from = 5;
  valid_until = none;
}

-- Alice is manager and access approver, Bob is manager, and Carol has Alice's approver role by a
-- delegation.
abbrev pub directory : Directory
directory = record {
  principals =
      ("alice", record { kind = PrincipalKind.person; display_name = "Alice"; active = true })
      ∷ ("bob", record { kind = PrincipalKind.person; display_name = "Bob"; active = true })
      ∷ ("carol", record { kind = PrincipalKind.person; display_name = "Carol"; active = true })
      ∷ [];
  bindings = [];
  assignments =
      role_assignment 1 "alice" "manager"
      ∷ role_assignment 2 "alice" "access_approver"
      ∷ role_assignment 3 "bob" "manager"
      ∷ [];
  delegations =
      record {
        delegation_id = 4;
        from_principal_id = "alice";
        to_principal_id = "carol";
        role = "access_approver";
        organization_scope = "hr";
        valid_from = 40;
        valid_until = 60;
      }
      ∷ [];
}
