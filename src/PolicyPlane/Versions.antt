-- ===== src/PolicyPlane/Versions.antt =====
-- PolicyVersionStatus, PolicyVersionRecord and PolicyLifecycleEvent of policy_plane.py, and the
-- overlap of two windows.
use administrative_orchestra.Base.{
  Bool, Eq, Option, Text, Timestamp, Uuid, arith, ltb, nat_beq, nat_eq, none, option_eq, some,
  string_eq, true, ℕ, ◌&&◌, ◌==◌, ◌↔◌, ◌≡◌,
}
use administrative_orchestra.Domain.{PolicyRef, policy_current, policy_eq, status_eq}

pub data PolicyVersionStatus : Type 0 where
  draft active shadow inactive retired : PolicyVersionStatus

abbrev pub version_status_index : PolicyVersionStatus → ℕ
version_status_index PolicyVersionStatus.draft = 0
version_status_index PolicyVersionStatus.active = 1
version_status_index PolicyVersionStatus.shadow = 2
version_status_index PolicyVersionStatus.inactive = 3
version_status_index PolicyVersionStatus.retired = 4

pub version_status_beq_iff :
    (a b : PolicyVersionStatus)
    → (nat_beq (version_status_index a) (version_status_index b) ≡ true) ↔ (a ≡ b)
version_status_beq_iff a b = (λ h. ground arith, λ h. ground arith)

instance abbrev pub version_status_eq : Eq PolicyVersionStatus
version_status_eq = record {
  beq = λ a b. nat_beq (version_status_index a) (version_status_index b);
  beq_iff = version_status_beq_iff;
}

-- The definition is a JSON object, which the plane stores and compares but does not read.
pub record PolicyVersionRecord (Json : Type 0) : Type 0 where
  pub policy_id : Text
  pub version : Text
  pub owner : Text
  pub status : PolicyVersionStatus
  pub effective_from : Timestamp
  pub effective_until : Option Timestamp
  pub definition : Json
  pub created_at : Timestamp

pub record PolicyLifecycleEvent : Type 0 where
  pub event_id : Uuid
  pub policy_id : Text
  pub version : Text
  pub action : Text
  pub actor_principal_id : Text
  pub reason : Text
  pub occurred_at : Timestamp

-- `PolicyVersionRecord.policy_ref`
abbrev pub policy_ref : {Json : Type 0} → PolicyVersionRecord Json → PolicyRef
policy_ref r = record {
  policy_id = r.policy_id;
  version = r.version;
  owner = r.owner;
  effective_from = r.effective_from;
  effective_until = r.effective_until;
}

-- `PolicyVersionRecord.is_effective_at`
abbrev pub is_effective_at : {Json : Type 0} → PolicyVersionRecord Json → Timestamp → Bool
is_effective_at r at = (r.status == PolicyVersionStatus.active) && policy_current (policy_ref r) at

-- `end is None or start < end`
abbrev starts_before : Timestamp → Option Timestamp → Bool
starts_before start none = true
starts_before start (some end) = ltb start end

-- `_windows_overlap`
unfoldable pub windows_overlap : Timestamp → Option Timestamp → Timestamp → Option Timestamp → Bool
windows_overlap left_start left_end right_start right_end =
    starts_before left_start right_end && starts_before right_start left_end
