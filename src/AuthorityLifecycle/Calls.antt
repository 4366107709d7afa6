-- ===== src/AuthorityLifecycle/Calls.antt =====
-- Sequences of calls of AuthorityLifecycleRepository.
use administrative_orchestra.Authority.{IdentityBinding}
use administrative_orchestra.AuthorityLifecycle.Events.{Recorded, Registry}
use administrative_orchestra.AuthorityLifecycle.Operations.{
  Command, bind_identity, deactivate_principal, expire_delegation, expire_identity_binding,
  expire_role_assignment,
}
use administrative_orchestra.Base.{
  List, Text, Timestamp, Uuid, [], err, list_eq, nat_eq, ok, option_eq, string_eq, ◌∷◌,
}

pub data Call : Type 0 where
  deactivate : Text → Command → Call
  expire_binding expire_assignment expire_grant : Uuid → Command → Call
  bind : Uuid → IdentityBinding → Text → Text → Call

module _ (uuid5 : Text → Uuid) (isoformat json_time : Timestamp → Text) (str : Uuid → Text) where
  abbrev pub perform : Call → Registry → Recorded
  perform (Call.deactivate id command) =
      deactivate_principal uuid5 isoformat json_time str id command
  perform (Call.expire_binding id command) =
      expire_identity_binding uuid5 isoformat json_time str id command
  perform (Call.expire_assignment id command) =
      expire_role_assignment uuid5 isoformat json_time str id command
  perform (Call.expire_grant id command) =
      expire_delegation uuid5 isoformat json_time str id command
  perform (Call.bind event_id binding actor reason) =
      bind_identity uuid5 isoformat json_time str event_id binding actor reason

  -- A call that raises leaves the tables as they were.
  abbrev pub left_by : Registry → Recorded → Registry
  left_by registry (ok (event, registry')) = registry'
  left_by registry (err raised) = registry

  abbrev pub perform_all : List Call → Registry → Registry
  perform_all [] registry = registry
  perform_all (call ∷ calls) registry = perform_all calls (left_by registry (perform call registry))
