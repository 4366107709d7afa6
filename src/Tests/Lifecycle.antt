-- ===== src/Tests/Lifecycle.antt =====
-- The lifecycle of a case on concrete runs.
use administrative_orchestra.Base.{
  Any, Option, Text, [], arith, contains, err, false, is_ok, nat_eq, none, ok, option_eq, refl,
  some, string_eq, true, ◌>>=◌, ◌∷◌, ◌≡◌, ◌≤◌,
}
use administrative_orchestra.Cases.{
  ParsedTime, authorization_stale, create_case, mint_execution_authorization, moved_to,
  validate_execution_authorization,
}
use administrative_orchestra.Cases.Freshness.{SameBasis, minted_basis, minted_validates}
use administrative_orchestra.Cases.Graph.{apply-terminal, apply-⟶, ◌⟶◌}
use administrative_orchestra.Cases.Invariant.{IsValid, Moved, apply-Moved}
use administrative_orchestra.Cases.Lifecycle.{Action, apply, program, run}
use administrative_orchestra.Cases.Runs.{
  IsApproval, run-IsValid, run-version, run_active_needs-IsApproval,
}
use administrative_orchestra.Domain.{
  AuthorityClass, CaseStatus, authority_class_eq, policy_eq, status_eq, validate_authorization,
}
use administrative_orchestra.Policy.{validate_evaluation}
use administrative_orchestra.Tests.Samples.{
  approval, authorization, authorized, opened, request, to_authorized,
}

abbrev never : Text → Option ParsedTime
never t = none

opened_created : create_case request 7 "employee-onboarding" "emp-1" none 20 ≡ opened
unfolding create_case
opened_created = refl

run-authorized : run never to_authorized opened ≡ ok authorized
unfolding run program
run-authorized = refl

opened-IsValid : IsValid opened
opened-IsValid = ground arith

authorized-IsValid : IsValid authorized
authorized-IsValid = ground arith

run-IsValid_example : IsValid authorized
unfolding validate_evaluation
run-IsValid_example =
    run-IsValid never to_authorized opened (tt, (refl, (tt, tt))) opened-IsValid run-authorized

run-version_example :
    (authorized.version ≡ 4) × (opened.authority_epoch ≤ authorized.authority_epoch)
run-version_example = run-version never to_authorized opened run-authorized

run_active_needs-IsApproval_example : Any IsApproval to_authorized
run_active_needs-IsApproval_example =
    run_active_needs-IsApproval never to_authorized opened refl run-authorized refl

executing :
    apply never 70 Action.execute authorized ≡ ok (moved_to 70 authorized CaseStatus.executing)
unfolding program
executing = refl

apply-Moved_example : Moved never 70 authorized (moved_to 70 authorized CaseStatus.executing)
apply-Moved_example = apply-Moved never 70 Action.execute authorized executing

apply-⟶_example : CaseStatus.authorized ⟶ CaseStatus.executing
apply-⟶_example = apply-⟶ never 70 Action.execute authorized executing

apply-terminal_example :
    is_ok (apply never 70 Action.execute (moved_to 70 authorized CaseStatus.completed)) ≡ false
apply-terminal_example =
    apply-terminal never 70 Action.execute (moved_to 70 authorized CaseStatus.completed) refl

minted :
    mint_execution_authorization 55 authorized approval 60 "administrative-orchestrator" "hris"
      ("employee.create" ∷ [])
      AuthorityClass.employment
      (some 100)
    ≡ ok authorization
unfolding mint_execution_authorization validate_authorization
minted = refl

run-executing :
    run never ((70, Action.execute) ∷ []) authorized
    ≡ ok (moved_to 70 authorized CaseStatus.executing)
unfolding run program
run-executing = refl

still_valid :
    validate_execution_authorization 80
      (moved_to 70 authorized CaseStatus.executing)
      authorization
      "employee.create"
    ≡ ok tt
unfolding validate_execution_authorization
still_valid = refl

minted_basis_example :
    SameBasis authorized (moved_to 70 authorized CaseStatus.executing)
    × (contains {A = Text} ("employee.create" ∷ []) "employee.create" ≡ true)
minted_basis_example =
    minted_basis never 55 80 authorized authorization ((70, Action.execute) ∷ []) "employee.create"
      approval 60 "administrative-orchestrator" "hris" ("employee.create" ∷ [])
      AuthorityClass.employment (some 100) minted run-executing still_valid

-- New evidence ends the authorization.
evidence_ends :
    (run never
        ((
          70,
          Action.evidence (record {
            evidence_id = 1;
            source = "mail";
            owner = "hr";
            observed_at = 1;
            version = none;
            digest = none;
            metadata = [];
          }),
        )
          ∷ [])
        authorized
      >>= λ c. validate_execution_authorization 80 c authorization "employee.create")
    ≡ err authorization_stale
unfolding run program validate_execution_authorization
evidence_ends = refl

minted_validates_example :
    (validate_authorization authorization ≡ ok authorization)
    × (authorization.case_version ≡ authorized.version)
    × (some authorization.policy_ref ≡ authorized.policy_ref)
    × (validate_execution_authorization 55 authorized authorization "employee.create" ≡ ok tt)
minted_validates_example =
    minted_validates 55 authorized approval 60 "administrative-orchestrator" "hris"
      "employee.create" ("employee.create" ∷ []) AuthorityClass.employment (some 100) minted refl
      refl
