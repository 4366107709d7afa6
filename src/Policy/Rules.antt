-- ===== src/Policy/Rules.antt =====
-- ApprovalRule of policy.py, and how the evaluators read a fact by its name.
use administrative_orchestra.Base.{
  Bool, List, Option, Outcome, Text, false, is_empty, length, ltb, none, ok, raise_if, some, true,
  ◌&&◌, ◌>>◌,
}
use administrative_orchestra.Domain.{Value}
use administrative_orchestra.Policy.Evaluation.{EvaluationError}

pub record ApprovalRule : Type 0 where
  pub roles : List Text
  pub require_distinct_principals : Bool

pub data RuleError : Type 0 where
  rule_without_roles distinct_rule_without_two_roles : RuleError

-- `ApprovalRule.validate_rule`
unfoldable pub validate_rule : ApprovalRule → Outcome RuleError ApprovalRule
validate_rule r = do
  raise_if (is_empty r.roles) rule_without_roles
  raise_if (r.require_distinct_principals && ltb (length r.roles) 2) distinct_rule_without_two_roles
  ok r

-- What an evaluation raises: an unknown field name, or the validator of its result.
pub data PolicyError : Type 0 where
  no_attribute : Text → PolicyError
  invalid_evaluation : EvaluationError → PolicyError

-- An optional text field.
abbrev pub optional_text : Option Text → Value
optional_text none = Value.null
optional_text (some t) = Value.text t

abbrev pub is_null : Value → Bool
is_null Value.null = true
is_null _ = false
