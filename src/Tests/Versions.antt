-- ===== src/Tests/Versions.antt =====
-- The policy plane on a concrete store.
use administrative_orchestra.Base.{
  Any, Bool, Option, Text, Timestamp, [], err, false, is_blank, is_space, nat_eq, none, ok,
  option_eq, refl, some, string_eq, strip, strip_left, strip_right, true, ℕ, ◌↔◌, ◌∷◌, ◌≡◌, ◌⊎◌,
}
use administrative_orchestra.Domain.{status_eq}
use administrative_orchestra.PolicyPlane.{
  Command, PolicyLifecycleEvent, PolicyStore, PolicyVersionRecord, PolicyVersionStatus, activate,
  get_version, is_effective_at, list_lifecycle_events, perform, perform_all, policy_writes,
  resolve_current, version_status_eq, windows_conflict, windows_overlap,
}
use administrative_orchestra.PolicyPlane.Activation.{activate_lem, activation_event}
use administrative_orchestra.PolicyPlane.Immutability.{Restated, perform_keeps}
use administrative_orchestra.PolicyPlane.Listing.{IsRow}
use administrative_orchestra.PolicyPlane.Resolution.{resolve_current_lem}
use administrative_orchestra.PolicyPlane.Separation.{AreSeparate}
use administrative_orchestra.PolicyPlane.Writes.{perform-AreSeparate, perform_all-AreSeparate}

abbrev version_of :
    Text → PolicyVersionStatus → Timestamp → Option Timestamp → PolicyVersionRecord ℕ
version_of v s from until = record {
  policy_id = "employee-onboarding";
  version = v;
  owner = "administrative-orchestrator";
  status = s;
  effective_from = from;
  effective_until = until;
  definition = 1;
  created_at = from;
}

abbrev first : PolicyVersionRecord ℕ
first = version_of "v1" PolicyVersionStatus.active 10 (some 50)

abbrev plane : PolicyStore ℕ
plane = record {
  versions = version_of "v2" PolicyVersionStatus.draft 50 none ∷ first ∷ [];
  events = [];
}

abbrev second : PolicyVersionRecord ℕ
second = version_of "v2" PolicyVersionStatus.active 50 none

abbrev launch : Command ℕ
launch = Command.activation 90 40 "employee-onboarding" "v2" "alice" "next year"

abbrev activated : PolicyStore ℕ
activated = record {
  versions = second ∷ first ∷ [];
  events =
      record {
        event_id = 90;
        policy_id = "employee-onboarding";
        version = "v2";
        action = "activate";
        actor_principal_id = "alice";
        reason = "next year";
        occurred_at = 40;
      }
      ∷ [];
}

abbrev by_length : Text → Text → Bool
by_length a b = true

plane_writes : Unit {0}
unfolding policy_writes windows_overlap strip strip_left strip_right is_space
plane_writes = tt

launched : perform launch plane ≡ ok (second, activated)
unfolding plane_writes
launched = refl

plane-AreSeparate : AreSeparate plane.versions
unfolding plane_writes
plane-AreSeparate = ((refl, tt), (tt, tt))

-- A second open window is refused.
overlap_refused :
    perform (Command.put (version_of "v3" PolicyVersionStatus.active 60 none)) activated
    ≡ err windows_conflict
unfolding plane_writes
overlap_refused = refl

perform-AreSeparate_example : AreSeparate activated.versions
perform-AreSeparate_example = perform-AreSeparate launch plane plane-AreSeparate launched

perform_all-AreSeparate_example : AreSeparate (perform_all (launch ∷ launch ∷ []) plane).versions
perform_all-AreSeparate_example =
    perform_all-AreSeparate (launch ∷ launch ∷ []) plane plane-AreSeparate

perform_keeps_example :
    Restated
      (version_of "v2" PolicyVersionStatus.draft 50 none)
      (get_version "employee-onboarding" "v2" activated.versions)
perform_keeps_example = perform_keeps launch plane "employee-onboarding" "v2" refl launched

resolve_current_lem_example :
    (resolve_current by_length "employee-onboarding" 20 plane ≡ ok first) ↔ (
      IsRow first plane.versions
      × (first.policy_id ≡ "employee-onboarding")
      × (is_effective_at first 20 ≡ true))
resolve_current_lem_example =
    resolve_current_lem by_length "employee-onboarding" 20 plane first plane-AreSeparate

launched_by_activate :
    activate 90 40 "employee-onboarding" "v2" "alice" "next year" plane ≡ ok (second, activated)
unfolding plane_writes
launched_by_activate = refl

activate_lem_example :
    (resolve_current by_length "employee-onboarding" 60 activated ≡ ok second)
    × (is_blank (strip "next year") ≡ false)
    × ((e : PolicyLifecycleEvent)
        → Any (λ x. x ≡ e) (list_lifecycle_events "employee-onboarding" activated) ↔ (
            Any (λ x. x ≡ e) (list_lifecycle_events "employee-onboarding" plane)
            ⊎ (activation_event 90 40 "employee-onboarding" "v2" "alice" "next year" ≡ e)))
activate_lem_example =
    activate_lem by_length 90 40 60 "employee-onboarding" "v2" "alice" "next year" plane
      plane-AreSeparate launched_by_activate refl
