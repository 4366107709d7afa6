-- ===== src/Domain/Authority.antt =====
-- Principal, RoleAssignment, Delegation and PolicyRef, with their validity windows.
use administrative_orchestra.Base.{
  Bool, Eq, Option, Outcome, Text, Timestamp, Uuid, arith, leb, ltb, nat_eq, none, ok,
  option_beq_iff, option_eq, raise_if, some, str_beq_iff, string_eq, true, ◌&&◌, ◌==◌, ◌>>◌, ◌↔◌,
  ◌≡◌,
}
use administrative_orchestra.Domain.Kinds.{PrincipalKind}

-- `valid_from <= at and (valid_until is None or at < valid_until)`, which the source writes in
-- each class that has a window.
abbrev pub within : Timestamp → Option Timestamp → Timestamp → Bool
within from none at = leb from at
within from (some until) at = leb from at && ltb at until

pub record Principal : Type 0 where
  pub principal_id : Text
  pub kind : PrincipalKind
  pub display_name : Text

pub record RoleAssignment : Type 0 where
  pub assignment_id : Uuid
  pub principal_id : Text
  pub role : Text
  pub organization_scope : Text
  pub valid_from : Timestamp
  pub valid_until : Option Timestamp

-- `RoleAssignment.is_current_at`
abbrev pub assignment_current : RoleAssignment → Timestamp → Bool
assignment_current a at = within a.valid_from a.valid_until at

pub record Delegation : Type 0 where
  pub delegation_id : Uuid
  pub from_principal_id : Text
  pub to_principal_id : Text
  pub role : Text
  pub organization_scope : Text
  pub valid_from : Timestamp
  pub valid_until : Timestamp

pub data WindowError : Type 0 where
  until_not_after_from : WindowError

-- `Delegation.validate_window`
unfoldable pub validate_window : Delegation → Outcome WindowError Delegation
validate_window d = do raise_if (leb d.valid_until d.valid_from) until_not_after_from; ok d

pub record PolicyRef : Type 0 where
  pub policy_id : Text
  pub version : Text
  pub owner : Text
  pub effective_from : Timestamp
  pub effective_until : Option Timestamp

-- `PolicyRef.is_current_at`
abbrev pub policy_current : PolicyRef → Timestamp → Bool
policy_current p at = within p.effective_from p.effective_until at

abbrev pub policy_beq : PolicyRef → PolicyRef → Bool
policy_beq p q =
    (p.policy_id == q.policy_id)
    && ((p.version == q.version)
        && ((p.owner == q.owner)
            && ((p.effective_from == q.effective_from)
                && (p.effective_until == q.effective_until))))

pub policy_beq_iff : (p q : PolicyRef) → (policy_beq p q ≡ true) ↔ (p ≡ q)
policy_beq_iff p q = (
  λ h. ground (
    arith,
    str_beq_iff p.policy_id q.policy_id,
    str_beq_iff p.version q.version,
    str_beq_iff p.owner q.owner,
    option_beq_iff p.effective_until q.effective_until,
  ),
  λ h. ground (
    arith,
    str_beq_iff p.policy_id q.policy_id,
    str_beq_iff p.version q.version,
    str_beq_iff p.owner q.owner,
    option_beq_iff p.effective_until q.effective_until,
  ),
)

instance abbrev pub policy_eq : Eq PolicyRef
policy_eq = record { beq = policy_beq; beq_iff = policy_beq_iff }
