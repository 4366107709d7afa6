-- ===== src/Cases/Freshness.antt =====
-- Execution authorizations of service.py over runs of transitions.
use administrative_orchestra.Authority.{ApprovalSatisfaction}
use administrative_orchestra.Base.{
  >>=-eq-ok, List, Option, Text, Timestamp, Uuid, [], arith, contains, inr, nat_eq, ok, option_eq,
  some, str_beq_iff, string_eq, true, ◌<◌, ◌∷◌, ◌≡◌, ◌⊎◌,
}
use administrative_orchestra.Cases.Execution.{
  mint_execution_authorization, mint_execution_authorization_from_approval,
  validate_execution_authorization,
}
use administrative_orchestra.Cases.Lifecycle.{Action, apply, program, run}
use administrative_orchestra.Cases.Waiting.{ParsedTime}
use administrative_orchestra.Domain.{
  AdministrativeCase, AuthorityClass, Decision, ExecutionAuthorization, authority_class_eq,
  authorization_current, policy_beq_iff, policy_eq, validate_authorization,
}

-- What an authorization rests on.
pub record SameBasis (c d : AdministrativeCase) : Type 0 where
  pub same_epoch : d.authority_epoch ≡ c.authority_epoch
  pub same_facts : d.fact_snapshot ≡ c.fact_snapshot
  pub same_evidence : d.evidence ≡ c.evidence
  pub same_policy : d.policy_ref ≡ c.policy_ref

module _ (from_iso : Text → Option ParsedTime) where
  step_basis :
      (now : Timestamp) (a : Action) (c : AdministrativeCase) {d : AdministrativeCase}
      → apply from_iso now a c ≡ ok d
      → SameBasis c d ⊎ (c.authority_epoch < d.authority_epoch)
  unfolding program
  step_basis now (Action.evaluation e) c h = inr (ground arith)
  step_basis now (Action.new_facts e) c h = inr (ground arith)
  step_basis now (Action.reevaluated_facts e) c h = inr (ground arith)
  step_basis now (Action.evidence e) c h = inr (ground arith)
  step_basis now (Action.reopen e) c h = inr (ground arith)
  step_basis now a c h = ground arith

  -- In a run the authority epoch rises, or facts, evidence and policy are still the same.
  pub run_basis :
      (steps : List (Timestamp × Action)) (c : AdministrativeCase) {d : AdministrativeCase}
      → run from_iso steps c ≡ ok d
      → SameBasis c d ⊎ (c.authority_epoch < d.authority_epoch)
  unfolding run
  run_basis [] c h = ground arith
  run_basis ((now, a) ∷ steps) c h =
      let (m, e, r) = >>=-eq-ok (apply from_iso now a c) (run from_iso steps) h in
      ground (arith, step_basis now a c e, run_basis steps m r)

  module _ (at later : Timestamp) (c : AdministrativeCase) (authorization : ExecutionAuthorization)
      (steps : List (Timestamp × Action)) {d : AdministrativeCase} (operation : Text) where
    -- An authorization that was minted from a decision, and that validates after any run of
    -- transitions, is used in the authority epoch of its minting, over the same facts, the same
    -- evidence and the same policy, for an operation that it lists.
    pub minted_basis :
        (decision : Decision) (id : Uuid) (issuer target : Text) (operations : List Text)
        (class : AuthorityClass) (expires : Option Timestamp)
        → mint_execution_authorization at c decision id issuer target operations class expires
          ≡ ok authorization
        → run from_iso steps c ≡ ok d
        → validate_execution_authorization later d authorization operation ≡ ok tt
        → SameBasis c d × (contains operations operation ≡ true)
    unfolding mint_execution_authorization validate_execution_authorization
    minted_basis decision id issuer target operations class expires m r v =
        ground (arith, run_basis steps c r)

    -- An authorization that was minted from an approval satisfaction, and that validates after
    -- any run of transitions, is used in the authority epoch of its minting, over the same facts,
    -- the same evidence and the same policy, for an operation that it lists.
    pub minted_from_approval_basis :
        (approval : ApprovalSatisfaction) (id : Uuid) (issuer target : Text)
        (operations : List Text) (class : AuthorityClass) (expires : Option Timestamp)
        → mint_execution_authorization_from_approval at c approval id issuer target operations class
            expires
          ≡ ok authorization
        → run from_iso steps c ≡ ok d
        → validate_execution_authorization later d authorization operation ≡ ok tt
        → SameBasis c d × (contains operations operation ≡ true)
    unfolding mint_execution_authorization_from_approval validate_execution_authorization
    minted_from_approval_basis approval id issuer target operations class expires m r v =
        ground (arith, run_basis steps c r)

-- An authorization that is minted from a decision passes the validator of its record, carries the
-- version and the policy of the case, and, if it is current, validates at once on the case for
-- each operation that it lists.
pub minted_validates :
    (at : Timestamp) (c : AdministrativeCase) (decision : Decision) (id : Uuid)
    (issuer target operation : Text) (operations : List Text) (class : AuthorityClass)
    (expires : Option Timestamp) {a : ExecutionAuthorization}
    → mint_execution_authorization at c decision id issuer target operations class expires ≡ ok a
    → contains operations operation ≡ true
    → authorization_current a at ≡ true
    → (validate_authorization a ≡ ok a)
      × (a.case_version ≡ c.version)
      × (some a.policy_ref ≡ c.policy_ref)
      × (validate_execution_authorization at c a operation ≡ ok tt)
unfolding mint_execution_authorization validate_execution_authorization validate_authorization
minted_validates at c decision id issuer target operation operations class expires h o t =
    ground (arith, policy_beq_iff decision.policy_ref, str_beq_iff c.subject_ref c.subject_ref)
