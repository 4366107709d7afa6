-- ===== src/Authority/Records.antt =====
-- The records of src/administrative_orchestrator/authority.py.
use administrative_orchestra.Base.{Bool, Dict, List, Option, Text, Timestamp, Uuid, ℕ}
use administrative_orchestra.Domain.{Delegation, PolicyRef, PrincipalKind, RoleAssignment, within}

pub data AuthorityError : Type 0 where
  identity_bound_otherwise assignment_conflict delegation_conflict : AuthorityError
  decision_without_role binding_conflict satisfaction_conflict : AuthorityError
  no_human_decision role_not_required role_not_eligible role_ambiguous : AuthorityError
  reason_missing target_absent before_validity_start event_reused : AuthorityError
  bound_to_inactive_principal binding_overlaps integrity_error delegation_invalid : AuthorityError

pub record IdentityBinding : Type 0 where
  pub binding_id : Uuid
  pub provider : Text
  pub external_subject : Text
  pub principal_id : Text
  pub valid_from : Timestamp
  pub valid_until : Option Timestamp

-- `IdentityBinding.is_current_at`
abbrev pub binding_current : IdentityBinding → Timestamp → Bool
binding_current b at = within b.valid_from b.valid_until at

pub record ApprovalSatisfaction : Type 0 where
  pub satisfaction_id : Uuid
  pub case_id : Uuid
  pub authority_epoch : ℕ
  pub policy_ref : PolicyRef
  pub decision_ids : List Uuid
  pub satisfied_roles : List Text
  pub assessed_at : Timestamp

pub record ApprovalAssessment : Type 0 where
  pub satisfied : Bool
  pub required_roles : List Text
  pub missing_roles : List Text
  pub distinct_principals_required : Bool
  pub selected_decision_ids : List Uuid
  pub selected_principal_ids : List Text
  pub satisfaction : Option ApprovalSatisfaction

-- A row of `administrative_principal`, under its key.
pub record PrincipalRow : Type 0 where
  pub kind : PrincipalKind
  pub display_name : Text
  pub active : Bool

-- The four tables that decide who holds which role; a list is a table in the order of its rows.
pub record Directory : Type 0 where
  pub principals : Dict Text PrincipalRow
  pub bindings : List IdentityBinding
  pub assignments : List RoleAssignment
  pub delegations : List Delegation
