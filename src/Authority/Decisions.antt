-- ===== src/Authority/Decisions.antt =====
-- `resolve_decision_role` and `assess_approval_satisfaction`. `uuid5` is Python's: the id of a
-- satisfaction is an unknown function of the name that the source builds, the case, the epoch and
-- the decision ids in their order as text.
use administrative_orchestra.Authority.Records.{
  ApprovalAssessment, AuthorityError, Directory, no_human_decision, role_ambiguous,
  role_not_eligible, role_not_required,
}
use administrative_orchestra.Authority.Registry.{roles_for}
use administrative_orchestra.Authority.Selection.{select_role_decisions}
use administrative_orchestra.Base.{
  Bool, List, Option, Outcome, Text, Timestamp, Uuid, [], contains, err, false, if◌then◌else◌,
  is_empty, keep, leb, list_eq, map, nat_eq, none, not, ok, option_eq, raise_if, some, sort_by,
  string_eq, true, ℕ, ◌&&◌, ◌==◌, ◌>>=◌, ◌>>◌, ◌∷◌,
}
use administrative_orchestra.Domain.{
  Decision, DecisionDisposition, PolicyRef, decision_eq, policy_eq,
}
use administrative_orchestra.Policy.{PolicyEvaluation}

pub record SatisfactionName : Type 0 where
  pub case_id : Uuid
  pub authority_epoch : ℕ
  pub sorted_decision_ids : List Uuid

abbrev pub sorted_ids : List Uuid → List Uuid
sorted_ids = sort_by leb

abbrev only_role : List Text → Outcome AuthorityError Text
only_role (role ∷ []) = ok role
only_role _ = err role_ambiguous

unfoldable pub resolve_decision_role :
    Text
    → PolicyEvaluation
    → Text
    → Option Text
    → Timestamp
    → Directory
    → Outcome AuthorityError Text
resolve_decision_role principal evaluation scope requested at dir = do
  let required = evaluation.required_decision_roles
  raise_if (is_empty required) no_human_decision
  roles ← roles_for principal scope at dir
  let eligible = keep (contains required) roles
  elim requested [
    | none ↦ only_role eligible
    | some role ↦ do
      raise_if (not (contains required role)) role_not_required
      raise_if (not (contains eligible role)) role_not_eligible
      ok role
  ]

-- `role in roles`, for a decision role that may be missing
abbrev pub is_among : List Text → Option Text → Bool
is_among roles none = false
is_among roles (some role) = contains roles role

module _ (dir : Directory) (case_id : Uuid) (authority_epoch : ℕ) (policy_ref : PolicyRef)
    (scope : Text) where
  -- The loop does not pass over the decision: the negation of its first guard.
  unfoldable pub counts_for : List Text → Decision → Bool
  counts_for roles d =
      (d.case_id == case_id)
      && ((d.authority_epoch == authority_epoch)
          && ((d.policy_ref == policy_ref)
              && ((d.disposition == DecisionDisposition.approve)
                  && is_among roles d.decision_role)))

  -- The decisions that the loop appends to the candidates of their roles.
  unfoldable pub qualified : List Text → List Decision → Outcome AuthorityError (List Decision)
  unfolding counts_for
  qualified roles [] = ok []
  qualified roles (d ∷ ds) =
      let rest = qualified roles ds in
      if not (counts_for roles d)
      then rest
      else (roles_for d.principal_id scope d.decided_at dir >>= λ held.
          rest >>= λ chosen. ok (if is_among held d.decision_role then d ∷ chosen else chosen))

  -- `candidates[role]`, in the order of the decisions.
  abbrev pub candidates : List Decision → Text → List Decision
  candidates chosen role = keep (λ d. d.decision_role == some role) chosen

  abbrev pub unsatisfied : List Text → List Text → Bool → ApprovalAssessment
  unsatisfied roles missing distinct = record {
    satisfied = false;
    required_roles = roles;
    missing_roles = missing;
    distinct_principals_required = distinct;
    selected_decision_ids = [];
    selected_principal_ids = [];
    satisfaction = none;
  }

  -- The end of the assessment, by what the search for decisions found.
  unfoldable pub assessed :
      (SatisfactionName → Uuid)
      → List Text
      → Bool
      → Timestamp
      → Option (List Decision)
      → ApprovalAssessment
  assessed uuid5 roles distinct now none = unsatisfied roles [] distinct
  assessed uuid5 roles distinct now (some selected) =
      let ids = map (λ d. d.decision_id) selected in
      record {
        satisfied = true;
        required_roles = roles;
        missing_roles = [];
        distinct_principals_required = distinct;
        selected_decision_ids = ids;
        selected_principal_ids = map (λ d. d.principal_id) selected;
        satisfaction = some (record {
          satisfaction_id = uuid5 (record {
            case_id = case_id;
            authority_epoch = authority_epoch;
            sorted_decision_ids = sorted_ids ids;
          });
          case_id = case_id;
          authority_epoch = authority_epoch;
          policy_ref = policy_ref;
          decision_ids = ids;
          satisfied_roles = roles;
          assessed_at = now;
        });
      }

  unfoldable pub assess_approval_satisfaction :
      (SatisfactionName → Uuid)
      → PolicyEvaluation
      → List Decision
      → Timestamp
      → Outcome AuthorityError ApprovalAssessment
  assess_approval_satisfaction uuid5 evaluation decisions now = do
    let roles = evaluation.required_decision_roles
    let distinct = evaluation.require_distinct_decision_principals
    chosen ← qualified roles decisions
    let missing = keep (λ role. is_empty (candidates chosen role)) roles
    ok (
        if not (is_empty missing)
        then unsatisfied roles missing distinct
        else assessed uuid5 roles distinct now
            (select_role_decisions roles (candidates chosen) distinct))
