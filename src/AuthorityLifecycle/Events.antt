-- ===== src/AuthorityLifecycle/Events.antt =====
-- AuthorityLifecycleEvent, and `_record` of authority_lifecycle.py.
use administrative_orchestra.Authority.{AuthorityError, Directory, event_reused}
use administrative_orchestra.Base.{
  Bool, Dict, List, Option, Outcome, Text, Timestamp, Uuid, [], err, false, find, if◌then◌else◌,
  list_eq, nat_eq, none, ok, option_eq, some, string_eq, true, ◌&&◌, ◌==◌, ◌∷◌,
}
use administrative_orchestra.Domain.{Value, value_beq}

pub record AuthorityLifecycleEvent : Type 0 where
  pub event_id : Uuid
  pub event_type : Text
  pub actor_principal_id : Text
  pub target_ref : Text
  pub reason : Text
  pub payload : Dict Text Value
  pub occurred_at : Timestamp

-- The tables that the repository reads and writes.
pub record Registry : Type 0 where
  pub directory : Directory
  pub events : List AuthorityLifecycleEvent

abbrev pub payload_beq : Dict Text Value → Dict Text Value → Bool
payload_beq [] [] = true
payload_beq ((k, v) ∷ p) ((j, w) ∷ q) = ((k == j) && value_beq v w) && payload_beq p q
payload_beq _ _ = false

-- `stored == event`
abbrev pub event_beq : AuthorityLifecycleEvent → AuthorityLifecycleEvent → Bool
event_beq a b =
    ((a.event_id == b.event_id) && (a.event_type == b.event_type))
    && (((a.actor_principal_id == b.actor_principal_id) && (a.target_ref == b.target_ref))
        && ((a.reason == b.reason)
            && (payload_beq a.payload b.payload && (a.occurred_at == b.occurred_at))))

-- A call ends with the event and the tables, or with an exception.
abbrev pub Recorded : Type 0
Recorded = Outcome AuthorityError (AuthorityLifecycleEvent × Registry)

abbrev pub record_or_restore :
    AuthorityLifecycleEvent → Registry → Option AuthorityLifecycleEvent → Recorded
record_or_restore event registry none =
    ok (event, record registry { events = event ∷ registry.events })
record_or_restore event registry (some stored) =
    if event_beq stored event then ok (stored, registry) else err event_reused

-- `_record`
unfoldable pub record_event : AuthorityLifecycleEvent → Registry → Recorded
record_event event registry =
    record_or_restore event registry (find (λ e. e.event_id == event.event_id) registry.events)
