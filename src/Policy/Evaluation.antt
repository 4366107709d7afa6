-- ===== src/Policy/Evaluation.antt =====
-- PolicyDisposition, AuthorizedEffectTemplate and PolicyEvaluation of
-- src/administrative_orchestrator/policy.py, with the validator of the last.
use administrative_orchestra.Base.{
  Bool, Eq, List, Option, Outcome, Text, arith, is_empty, length, ltb, nat_beq, nat_eq, not, ok,
  option_eq, raise_if, string_eq, true, ℕ, ◌&&◌, ◌==◌, ◌>>◌, ◌↔◌, ◌≡◌,
}
use administrative_orchestra.Domain.{
  AuthorityClass, PolicyRef, ReopenReason, authority_class_eq, is_some, policy_eq,
}

pub data PolicyDisposition : Type 0 where
  auto_closable human_decision_required need_more_facts reopen_required denied : PolicyDisposition

pub record AuthorizedEffectTemplate : Type 0 where
  pub target_system : Text
  pub operation : Text
  pub authority_class : AuthorityClass

pub record PolicyEvaluation : Type 0 where
  pub policy_ref : PolicyRef
  pub disposition : PolicyDisposition
  pub reason : Text
  pub missing_facts : List Text
  pub required_decision_roles : List Text
  pub require_distinct_decision_principals : Bool
  pub allowed_effects : List AuthorizedEffectTemplate
  pub reopen_reason : Option ReopenReason

pub data EvaluationError : Type 0 where
  need_more_facts_without_facts decision_without_roles distinct_without_two_roles : EvaluationError
  auto_closable_with_roles auto_closable_with_effects : EvaluationError
  reopen_without_reason reason_without_reopen : EvaluationError

abbrev pub disposition_index : PolicyDisposition → ℕ
disposition_index PolicyDisposition.auto_closable = 0
disposition_index PolicyDisposition.human_decision_required = 1
disposition_index PolicyDisposition.need_more_facts = 2
disposition_index PolicyDisposition.reopen_required = 3
disposition_index PolicyDisposition.denied = 4

pub disposition_beq_iff :
    (a b : PolicyDisposition)
    → (nat_beq (disposition_index a) (disposition_index b) ≡ true) ↔ (a ≡ b)
disposition_beq_iff a b = (λ h. ground arith, λ h. ground arith)

instance abbrev pub disposition_eq : Eq PolicyDisposition
disposition_eq = record {
  beq = λ a b. nat_beq (disposition_index a) (disposition_index b);
  beq_iff = disposition_beq_iff;
}

-- `PolicyEvaluation.validate_disposition`
unfoldable pub validate_evaluation : PolicyEvaluation → Outcome EvaluationError PolicyEvaluation
validate_evaluation e = do
  raise_if ((e.disposition == PolicyDisposition.need_more_facts) && is_empty e.missing_facts)
      need_more_facts_without_facts
  raise_if
      ((e.disposition == PolicyDisposition.human_decision_required)
        && is_empty e.required_decision_roles)
      decision_without_roles
  raise_if (e.require_distinct_decision_principals && ltb (length e.required_decision_roles) 2)
      distinct_without_two_roles
  raise_if
      ((e.disposition == PolicyDisposition.auto_closable)
        && not (is_empty e.required_decision_roles))
      auto_closable_with_roles
  raise_if ((e.disposition == PolicyDisposition.auto_closable) && not (is_empty e.allowed_effects))
      auto_closable_with_effects
  raise_if ((e.disposition == PolicyDisposition.reopen_required) && not (is_some e.reopen_reason))
      reopen_without_reason
  raise_if (not (e.disposition == PolicyDisposition.reopen_required) && is_some e.reopen_reason)
      reason_without_reopen
  ok e
