-- ===== src/Tests/Approvals.antt =====
-- Roles and approvals on a concrete directory.
use administrative_orchestra.Authority.{
  ApprovalAssessment, ApprovalSatisfaction, AuthorityError, SatisfactionName,
  assess_approval_satisfaction, assessed, counts_for, delegated_roles, direct_roles, qualified,
  roles_for, select_role_decisions,
}
use administrative_orchestra.Authority.Approval.{AreSupported, IsDistinct, approval_supported}
use administrative_orchestra.Authority.Holding.{
  Delegates, Holds, contains-roles_for, roles_for-returns,
}
use administrative_orchestra.Authority.Search.{principals_of}
use administrative_orchestra.Base.{
  All, Any, List, Outcome, Text, Uuid, [], contains, err, false, list_eq, map, nat_eq, none, ok,
  option_eq, refl, some, string_eq, true, ◌<◌, ◌↔◌, ◌∷◌, ◌≡◌, ◌⊎◌,
}
use administrative_orchestra.Cases.{
  mint_execution_authorization_from_approval, validate_execution_authorization,
}
use administrative_orchestra.Cases.Freshness.{SameBasis, minted_from_approval_basis}
use administrative_orchestra.Cases.Lifecycle.{run}
use administrative_orchestra.Domain.{
  AuthorityClass, Decision, ExecutionAuthorization, authority_class_eq, policy_eq,
}
use administrative_orchestra.Tests.Samples.{
  authorization, authorized, decision_of, directory, needs_decision, policy,
}

abbrev named : SatisfactionName → Uuid
named n = n.case_id

abbrev decisions : List Decision
decisions =
    decision_of 40 "alice" "manager"
    ∷ decision_of 41 "alice" "access_approver"
    ∷ decision_of 42 "bob" "manager"
    ∷ decision_of 43 "carol" "access_approver"
    ∷ []

-- The search tries Alice twice, refuses her second role, and takes Carol.
abbrev found_now : Outcome AuthorityError ApprovalAssessment
found_now = assess_approval_satisfaction directory 7 2 policy "hr" named needs_decision decisions 52

abbrev without_failure : Outcome AuthorityError ApprovalAssessment → ApprovalAssessment
without_failure (ok a) = a
without_failure (err e) = record {
  satisfied = false;
  required_roles = [];
  missing_roles = [];
  distinct_principals_required = false;
  selected_decision_ids = [];
  selected_principal_ids = [];
  satisfaction = none;
}

abbrev assessed_now : ApprovalAssessment
assessed_now = without_failure found_now

program : Unit {0}
unfolding assess_approval_satisfaction assessed select_role_decisions qualified counts_for roles_for
    delegated_roles direct_roles
program = tt

assessed_once : found_now ≡ ok assessed_now
unfolding program
assessed_once = refl

assessed_ids : (assessed_now.satisfied ≡ true) × (assessed_now.selected_decision_ids ≡ 40 ∷ 43 ∷ [])
unfolding program
assessed_ids = (refl, refl)

abbrev Supported : List Decision → Type 0
Supported = AreSupported directory 7 2 policy "hr" decisions ("manager" ∷ "access_approver" ∷ [])

approval_supported_example :
    (ds : List Decision) × (assessed_now.selected_decision_ids ≡ map (λ d. d.decision_id) ds)
    × Supported ds
    × ((true ≡ true) → IsDistinct (principals_of ds))
approval_supported_example =
    approval_supported directory 7 2 policy "hr" decisions named needs_decision 52 assessed_once
      assessed_ids.0

-- Carol has the role of an approver by Alice's delegation.
carol_roles : roles_for "carol" "hr" 50 directory ≡ ok ("access_approver" ∷ [])
unfolding program
carol_roles = refl

contains-roles_for_example :
    (contains {A = Text} ("access_approver" ∷ []) "access_approver" ≡ true) ↔ (
      Any (Holds "hr" 50 "carol" "access_approver") directory.assignments
      ⊎ Any (Delegates "hr" 50 directory "carol" "access_approver") directory.delegations)
contains-roles_for_example =
    contains-roles_for "hr" 50 directory "carol" "access_approver" carol_roles

roles_for-returns_example :
    ((roles : List Text) × (roles_for "carol" "hr" 50 directory ≡ ok roles))
    ↔ All (λ d. d.to_principal_id ≡ "carol" → d.valid_from < d.valid_until) directory.delegations
roles_for-returns_example = roles_for-returns "hr" 50 directory "carol"

abbrev satisfied_by : ApprovalSatisfaction
satisfied_by = record {
  satisfaction_id = 80;
  case_id = 7;
  authority_epoch = 2;
  policy_ref = policy;
  decision_ids = 40 ∷ 43 ∷ [];
  satisfied_roles = "manager" ∷ "access_approver" ∷ [];
  assessed_at = 52;
}

abbrev minted_by_approval : ExecutionAuthorization
minted_by_approval = record authorization { decision_id = none; approval_satisfaction_id = some 80 }

approval_minted :
    mint_execution_authorization_from_approval 55 authorized satisfied_by 60
      "administrative-orchestrator" "hris"
      ("employee.create" ∷ [])
      AuthorityClass.employment
      (some 100)
    ≡ ok minted_by_approval
unfolding mint_execution_authorization_from_approval
approval_minted = refl

approval_valid :
    validate_execution_authorization 80 authorized minted_by_approval "employee.create" ≡ ok tt
unfolding validate_execution_authorization
approval_valid = refl

no_steps : run (λ t. none) [] authorized ≡ ok authorized
unfolding run
no_steps = refl

minted_from_approval_basis_example :
    SameBasis authorized authorized
    × (contains {A = Text} ("employee.create" ∷ []) "employee.create" ≡ true)
minted_from_approval_basis_example =
    minted_from_approval_basis (λ t. none) 55 80 authorized minted_by_approval [] "employee.create"
      satisfied_by 60 "administrative-orchestrator" "hris" ("employee.create" ∷ [])
      AuthorityClass.employment (some 100) approval_minted no_steps approval_valid
