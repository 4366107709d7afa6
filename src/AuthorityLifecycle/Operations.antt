-- ===== src/AuthorityLifecycle/Operations.antt =====
-- AuthorityLifecycleRepository. `uuid5` gives an id under `NAMESPACE_URL`, `isoformat` and `json_time`
-- the texts of a time, `str` that of a UUID; the time of a call and the `uuid4()` of a binding's event
-- are arguments. `integrity_error` is the database's refusal of a key that is taken.
use administrative_orchestra.Authority.{
  Directory, IdentityBinding, before_validity_start, binding_overlaps, bindings_of,
  bound_to_inactive_principal, get_principal, integrity_error, reason_missing, target_absent,
}
use administrative_orchestra.AuthorityLifecycle.Events.{
  AuthorityLifecycleEvent, Recorded, Registry, record_event,
}
use administrative_orchestra.Base.{
  Bool, Dict, List, Option, Text, Timestamp, Uuid, [], any, false, find, if◌then◌else◌, insert,
  is_blank, join, leb, list_eq, lookup, ltb, map, nat_eq, none, not, option_eq, or_raise, raise_if,
  some, sort_by, string_eq, strip, take, true, ℕ, ◌&&◌, ◌++◌, ◌==◌, ◌>>=◌, ◌>>◌, ◌∷◌,
}
use administrative_orchestra.Domain.{Delegation, RoleAssignment, Value}

-- What `_expire_validity` uses of a table with validity windows.
pub record Validity (Row : Type 0) : Type 0 where
  pub key : Row → Uuid
  pub valid_from : Row → Timestamp
  pub valid_until : Row → Option Timestamp
  -- `row.valid_until = at`
  pub close : Timestamp → Row → Row

abbrev pub binding_validity : Validity IdentityBinding
binding_validity = record {
  key = λ b. b.binding_id;
  valid_from = λ b. b.valid_from;
  valid_until = λ b. b.valid_until;
  close = λ at b. record b { valid_until = some at };
}

abbrev pub assignment_validity : Validity RoleAssignment
assignment_validity = record {
  key = λ a. a.assignment_id;
  valid_from = λ a. a.valid_from;
  valid_until = λ a. a.valid_until;
  close = λ at a. record a { valid_until = some at };
}

abbrev pub delegation_validity : Validity Delegation
delegation_validity = record {
  key = λ d. d.delegation_id;
  valid_from = λ d. d.valid_from;
  valid_until = λ d. some d.valid_until;
  close = λ at d. record d { valid_until = at };
}

-- `previous is None or effective_at < previous`
abbrev pub is_earlier : Timestamp → Option Timestamp → Bool
is_earlier at none = true
is_earlier at (some previous) = ltb at previous

-- The end of the window after the call.
abbrev pub earlier_end : Timestamp → Option Timestamp → Timestamp
earlier_end at none = at
earlier_end at (some previous) = if ltb at previous then at else previous

module _ {Row : Type 0} (validity : Validity Row) where
  abbrev pub has_id : Uuid → Row → Bool
  has_id id row = validity.key row == id

  abbrev pub expired : Timestamp → Row → Row
  expired at row = if is_earlier at (validity.valid_until row) then validity.close at row else row

  -- The write to the row with an id.
  abbrev pub expire_row : Uuid → Timestamp → Row → Row
  expire_row id at row = if has_id id row then expired at row else row

-- `end is not None and end <= start`
abbrev pub ends_by : Option Timestamp → Timestamp → Bool
ends_by none from = false
ends_by (some until) from = leb until from

-- `_windows_overlap`
unfoldable pub bindings_overlap : IdentityBinding → IdentityBinding → Bool
bindings_overlap left right =
    not (ends_by left.valid_until right.valid_from)
    && not (ends_by right.valid_until left.valid_from)

-- What a caller gives to every operation.
pub record Command : Type 0 where
  pub actor_principal_id : Text
  pub reason : Text
  pub at : Timestamp

module _ (uuid5 : Text → Uuid) (isoformat json_time : Timestamp → Text) (str : Uuid → Text) where
  -- The id of an event that ends something.
  abbrev event_id_of : Text → Text → Timestamp → Uuid
  event_id_of event_type target at = uuid5 (
      join (
        "administrative:authority-lifecycle:"
        ∷ event_type
        ∷ ":"
        ∷ target
        ∷ ":"
        ∷ isoformat at
        ∷ []))

  -- `deactivate_principal`
  unfoldable pub deactivate_principal : Text → Command → Registry → Recorded
  deactivate_principal id command registry = do
    raise_if (is_blank (strip command.reason)) reason_missing
    row ← or_raise (lookup id registry.directory.principals) target_absent
    record_event
        (record {
          event_id = event_id_of "principal.deactivated" id command.at;
          event_type = "principal.deactivated";
          actor_principal_id = command.actor_principal_id;
          target_ref = join ("principal:" ∷ id ∷ []);
          reason = command.reason;
          payload = ("principal_id", Value.text id) ∷ [];
          occurred_at = command.at;
        })
        (if row.active
          then record registry {
            directory = record registry.directory {
              principals = insert id (record row { active = false }) registry.directory.principals;
            };
          }
          else registry)

  module _ {Row : Type 0} (validity : Validity Row) (event_type target_prefix : Text)
      (payload_fields : Row → Dict Text Value) (rows_of : Directory → List Row)
      (with_rows : List Row → Directory → Directory) where
    -- `_expire_validity`
    abbrev pub expire_validity : Uuid → Command → Registry → Recorded
    expire_validity id command registry = do
      raise_if (is_blank (strip command.reason)) reason_missing
      row ← or_raise (find (has_id validity id) (rows_of registry.directory)) target_absent
      raise_if (ltb command.at (validity.valid_from row)) before_validity_start
      record_event
          (record {
            event_id = event_id_of event_type (join (target_prefix ∷ ":" ∷ str id ∷ [])) command.at;
            event_type = event_type;
            actor_principal_id = command.actor_principal_id;
            target_ref = join (target_prefix ∷ ":" ∷ str id ∷ []);
            reason = command.reason;
            payload =
                payload_fields row
                ++ ("valid_from", Value.text (isoformat (validity.valid_from row)))
                  ∷ (
                    "valid_until",
                    Value.text (isoformat (earlier_end command.at (validity.valid_until row))),
                  )
                  ∷ [];
            occurred_at = command.at;
          })
          (record registry {
            directory =
                with_rows (map (expire_row validity id command.at) (rows_of registry.directory))
                  registry.directory;
          })

  -- The columns that the event of an ended binding shows.
  abbrev pub binding_fields : IdentityBinding → Dict Text Value
  binding_fields b =
      ("binding_id", Value.text (str b.binding_id))
      ∷ ("provider", Value.text b.provider)
      ∷ ("external_subject", Value.text b.external_subject)
      ∷ ("principal_id", Value.text b.principal_id)
      ∷ []

  -- The columns that the event of an ended assignment shows.
  abbrev pub assignment_fields : RoleAssignment → Dict Text Value
  assignment_fields a =
      ("assignment_id", Value.text (str a.assignment_id))
      ∷ ("principal_id", Value.text a.principal_id)
      ∷ ("role", Value.text a.role)
      ∷ ("organization_scope", Value.text a.organization_scope)
      ∷ []

  -- The columns that the event of an ended delegation shows.
  abbrev pub delegation_fields : Delegation → Dict Text Value
  delegation_fields d =
      ("delegation_id", Value.text (str d.delegation_id))
      ∷ ("from_principal_id", Value.text d.from_principal_id)
      ∷ ("to_principal_id", Value.text d.to_principal_id)
      ∷ ("role", Value.text d.role)
      ∷ ("organization_scope", Value.text d.organization_scope)
      ∷ []

  -- `expire_identity_binding`
  unfoldable pub expire_identity_binding : Uuid → Command → Registry → Recorded
  expire_identity_binding =
      expire_validity binding_validity "identity_binding.revoked" "identity-binding" binding_fields
        (λ dir. dir.bindings) (λ rows dir. record dir { bindings = rows })

  -- `expire_role_assignment`
  unfoldable pub expire_role_assignment : Uuid → Command → Registry → Recorded
  expire_role_assignment =
      expire_validity assignment_validity "role_assignment.expired" "role-assignment"
        assignment_fields (λ dir. dir.assignments) (λ rows dir. record dir { assignments = rows })

  -- `expire_delegation`
  unfoldable pub expire_delegation : Uuid → Command → Registry → Recorded
  expire_delegation =
      expire_validity delegation_validity "delegation.expired" "delegation" delegation_fields
        (λ dir. dir.delegations) (λ rows dir. record dir { delegations = rows })

  -- `bind_identity`
  unfoldable pub bind_identity : Uuid → IdentityBinding → Text → Text → Registry → Recorded
  unfolding get_principal
  bind_identity event_id b actor reason registry = do
    raise_if (is_blank (strip reason)) reason_missing
    principal ←
        or_raise (get_principal b.principal_id registry.directory) bound_to_inactive_principal
    raise_if
        (any (λ row. bindings_overlap row b)
          (bindings_of b.provider b.external_subject registry.directory))
        binding_overlaps
    raise_if (any (has_id binding_validity b.binding_id) registry.directory.bindings)
        integrity_error
    record_event
        (record {
          event_id = event_id;
          event_type = "identity_binding.created";
          actor_principal_id = actor;
          target_ref = join ("identity-binding:" ∷ str b.binding_id ∷ []);
          reason = reason;
          payload =
              ("binding_id", Value.text (str b.binding_id))
              ∷ ("provider", Value.text b.provider)
              ∷ ("external_subject", Value.text b.external_subject)
              ∷ ("principal_id", Value.text b.principal_id)
              ∷ ("valid_from", Value.text (json_time b.valid_from))
              ∷ (
                "valid_until",
                elim b.valid_until [ none ↦ Value.null | some at ↦ Value.text (json_time at) ],
              )
              ∷ [];
          occurred_at = b.valid_from;
        })
        (record registry {
          directory = record registry.directory {
            bindings = registry.directory.bindings ++ b ∷ [];
          };
        })

-- `list_events`: the latest first
unfoldable pub list_events : ℕ → List AuthorityLifecycleEvent → List AuthorityLifecycleEvent
list_events limit events = take limit (sort_by (λ e f. leb f.occurred_at e.occurred_at) events)
