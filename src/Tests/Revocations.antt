-- ===== src/Tests/Revocations.antt =====
-- Calls that end roles and bind identities on a concrete directory.
use administrative_orchestra.Authority.{
  IdentityBinding, delegated_roles, delegation_invalid, direct_roles, get_principal,
  resolve_identity, roles_for,
}
use administrative_orchestra.Authority.Roles.{asks}
use administrative_orchestra.AuthorityLifecycle.{
  AuthorityLifecycleEvent, Command, Recorded, Registry, bind_identity, bindings_overlap,
  expire_delegation, expire_identity_binding, expire_role_assignment, record_event,
}
use administrative_orchestra.AuthorityLifecycle.Calls.{Call, perform_all}
use administrative_orchestra.AuthorityLifecycle.Identities.{
  counts, perform_all_resolves, principal_of,
}
use administrative_orchestra.AuthorityLifecycle.Revocation.{
  expire_delegation_at_start, expire_delegation_roles, expire_role_assignment_roles,
}
use administrative_orchestra.AuthorityLifecycle.Shrinking.{without_assignment, without_delegation}
use administrative_orchestra.Base.{
  List, Text, Timestamp, Uuid, [], err, find, here, is_space, none, ok, refl, some, strip,
  strip_left, strip_right, true, ◌∷◌, ◌≡◌,
}
use administrative_orchestra.Domain.{Delegation, PrincipalKind, RoleAssignment}

abbrev digest : Text → Uuid
digest name = 500

abbrev clock : Timestamp → Text
clock at = "then"

abbrev shown : Uuid → Text
shown id = "id"

abbrev manager_role : RoleAssignment
manager_role = record {
  assignment_id = 30;
  principal_id = "alice";
  role = "manager";
  organization_scope = "hr";
  valid_from = 10;
  valid_until = none;
}

abbrev grant : Delegation
grant = record {
  delegation_id = 31;
  from_principal_id = "alice";
  to_principal_id = "bob";
  role = "manager";
  organization_scope = "hr";
  valid_from = 10;
  valid_until = 100;
}

abbrev account_of : Uuid → Timestamp → IdentityBinding
account_of id from = record {
  binding_id = id;
  provider = "feishu";
  external_subject = "ou-1";
  principal_id = "alice";
  valid_from = from;
  valid_until = none;
}

abbrev registry : Registry
registry = record {
  directory = record {
    principals =
        ("alice", record { kind = PrincipalKind.person; display_name = "Alice"; active = true })
        ∷ [];
    bindings = account_of 33 10 ∷ [];
    assignments = manager_role ∷ [];
    delegations = grant ∷ [];
  };
  events = [];
}

abbrev command : Command
command = record { actor_principal_id = "carol"; reason = "left the team"; at = 50 }

registry_program : Unit {0}
unfolding expire_role_assignment expire_delegation expire_identity_binding bind_identity
    get_principal bindings_overlap record_event strip strip_left strip_right is_space roles_for
    direct_roles delegated_roles resolve_identity
registry_program = tt

abbrev ended : Recorded → Registry
ended (ok (event, after)) = after
ended (err raised) = registry

abbrev shown_event : Recorded → AuthorityLifecycleEvent
shown_event (ok (event, after)) = event
shown_event (err raised) = record {
  event_id = 0;
  event_type = "";
  actor_principal_id = "";
  target_ref = "";
  reason = "";
  payload = [];
  occurred_at = 0;
}

abbrev expiry : Recorded
expiry = expire_role_assignment digest clock clock shown 30 command registry

expired_once : expiry ≡ ok (shown_event expiry, ended expiry)
unfolding registry_program
expired_once = refl

expire_role_assignment_roles_example :
    asks "hr" 60 "manager" (roles_for "bob" "hr" 60 (ended expiry).directory)
    ≡ asks "hr" 60 "manager"
        (roles_for "bob" "hr" 60 (without_assignment 60 30 50 registry.directory))
expire_role_assignment_roles_example =
    expire_role_assignment_roles digest clock clock shown 30 command registry (ended expiry)
      (shown_event expiry) "bob" "hr" 60 "manager" expired_once

-- The delegate loses the role with its source.
roles_after :
    (roles_for "bob" "hr" 49 (ended expiry).directory ≡ ok ("manager" ∷ []))
    × (roles_for "bob" "hr" 60 (ended expiry).directory ≡ ok [])
unfolding registry_program
roles_after = (refl, refl)

abbrev grant_expiry : Recorded
grant_expiry = expire_delegation digest clock clock shown 31 command registry

grant_expired : grant_expiry ≡ ok (shown_event grant_expiry, ended grant_expiry)
unfolding registry_program
grant_expired = refl

expire_delegation_roles_example :
    asks "hr" 60 "manager" (roles_for "bob" "hr" 60 (ended grant_expiry).directory)
    ≡ asks "hr" 60 "manager"
        (roles_for "bob" "hr" 60 (without_delegation 60 31 50 registry.directory))
expire_delegation_roles_example =
    expire_delegation_roles digest clock clock shown 31 command registry (ended grant_expiry)
      (shown_event grant_expiry) "bob" "hr" 60 "manager" ((λ same. (refl, refl)), tt) grant_expired

-- The delegation ends where it starts.
abbrev at_start : Command
at_start = record { actor_principal_id = "carol"; reason = "left the team"; at = 10 }

abbrev start_expiry : Recorded
start_expiry = expire_delegation digest clock clock shown 31 at_start registry

start_expired : start_expiry ≡ ok (shown_event start_expiry, ended start_expiry)
unfolding registry_program
start_expired = refl

expire_delegation_at_start_example :
    roles_for "bob" "hr" 60 (ended start_expiry).directory ≡ err delegation_invalid
expire_delegation_at_start_example =
    expire_delegation_at_start digest clock clock shown 31 at_start registry (ended start_expiry)
      (shown_event start_expiry) "bob" "hr" 60 "manager" grant (here refl) refl refl refl
      start_expired

-- The first binding is refused, the second one follows the revoked one.
abbrev calls : List Call
calls =
    Call.bind 70 (account_of 34 40) "carol" "new account"
    ∷ Call.expire_binding 33 command
    ∷ Call.bind 71 (account_of 35 50) "carol" "new account"
    ∷ []

abbrev rebound : Registry
rebound = perform_all digest clock clock shown calls registry

perform_all_resolves_example :
    resolve_identity "feishu" "ou-1" 60 rebound.directory
    ≡ principal_of (find (counts "feishu" "ou-1" 60) rebound.directory.bindings) rebound.directory
perform_all_resolves_example =
    perform_all_resolves digest clock clock shown calls registry "feishu" "ou-1" 60 (tt, tt)

binding_at : find (counts "feishu" "ou-1" 60) rebound.directory.bindings ≡ some (account_of 35 50)
unfolding registry_program
binding_at = refl
