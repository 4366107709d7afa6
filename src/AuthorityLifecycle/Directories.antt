-- ===== src/AuthorityLifecycle/Directories.antt =====
-- The directory after calls of authority_lifecycle.py.
use administrative_orchestra.Authority.{
  Directory, IdentityBinding, PrincipalRow, before_validity_start, binding_overlaps, bindings_of,
  bound_to_inactive_principal, get_principal, integrity_error, reason_missing, target_absent,
}
use administrative_orchestra.AuthorityLifecycle.Events.{
  AuthorityLifecycleEvent, Registry, event_beq, record_event, record_or_restore,
}
use administrative_orchestra.AuthorityLifecycle.Operations.{
  Command, Validity, bind_identity, binding_validity, bindings_overlap, deactivate_principal,
  expire_row, expire_validity, has_id,
}
use administrative_orchestra.Base.{
  >>-eq-ok, >>=-eq-ok, Bool, Dict, List, Option, Text, Timestamp, Uuid, [], any, ap, false, find,
  if-eq-ok, if◌then◌else◌, insert, is_blank, list_eq, lookup, ltb, map, nat_eq, none, ok,
  ok_injective, option_eq, or_raise, or_raise-eq-ok, refl, some, string_eq, strip, sym, true, ◌++◌,
  ◌==◌, ◌∙◌, ◌∷◌, ◌≡◌,
}
use administrative_orchestra.Domain.{Value}

-- The event that a call records does not touch the directory.
pub record_event-directory :
    (event stored : AuthorityLifecycleEvent) (registry registry' : Registry)
    → record_event event registry ≡ ok (stored, registry')
    → registry'.directory ≡ registry.directory
unfolding record_event
record_event-directory event stored registry registry' h =
    after (find (λ e. e.event_id == event.event_id) registry.events) h
  where
    after :
        (o : Option AuthorityLifecycleEvent)
        → record_or_restore event registry o ≡ ok (stored, registry')
        → registry'.directory ≡ registry.directory
    after none h = sym (ap (λ p. p.1.directory) (ok_injective _ _ _ refl h))
    after (some known) h = sym (
        ap (λ p. p.1.directory)
          (if-eq-ok (event_beq known event) (known, registry) (stored, registry') _ h).1)

module _ (uuid5 : Text → Uuid) (isoformat json_time : Timestamp → Text) (str : Uuid → Text) where
  module _ {Row : Type 0} (validity : Validity Row) (event_type target_prefix : Text)
      (payload_fields : Row → Dict Text Value) (rows_of : Directory → List Row)
      (with_rows : List Row → Directory → Directory) where
    -- What `_expire_validity` leaves.
    pub expire_validity-directory :
        (id : Uuid) (command : Command) (registry registry' : Registry)
        (event : AuthorityLifecycleEvent)
        → expire_validity uuid5 isoformat json_time str validity event_type target_prefix
            payload_fields rows_of with_rows id command registry
          ≡ ok (event, registry')
        → registry'.directory
          ≡ with_rows
              (map (expire_row validity id command.at) (rows_of registry.directory))
              registry.directory
    expire_validity-directory id command registry registry' event h =
        let (given, h₁) = >>-eq-ok (is_blank (strip command.reason)) reason_missing _ h in
        let (row, found, h₂) =
          >>=-eq-ok
            (or_raise (find (has_id validity id) (rows_of registry.directory)) target_absent) _
            h₁ in
        let (later, h₃) =
          >>-eq-ok (ltb command.at (validity.valid_from row)) before_validity_start _ h₂ in
        record_event-directory _ event _ registry' h₃

  pub deactivate_principal-directory :
      (id : Text) (command : Command) (registry registry' : Registry)
      (event : AuthorityLifecycleEvent)
      → deactivate_principal uuid5 isoformat json_time str id command registry
        ≡ ok (event, registry')
      → (row : PrincipalRow) × ((lookup id registry.directory.principals ≡ some row)
          × (registry'.directory ≡ (
              if row.active
              then record registry.directory {
                principals =
                    insert id (record row { active = false }) registry.directory.principals;
              }
              else registry.directory)))
  unfolding deactivate_principal
  deactivate_principal-directory id command registry registry' event h =
      let (given, h₁) = >>-eq-ok (is_blank (strip command.reason)) reason_missing _ h in
      let (row, found, h₂) =
        >>=-eq-ok (or_raise (lookup id registry.directory.principals) target_absent) _ h₁ in
      let same = record_event-directory _ event _ registry' h₂ in
      (row, (or_raise-eq-ok _ target_absent row found, same ∙ written row.active _))
    where
      written :
          (active : Bool) (dir : Directory)
          → (if active then record registry { directory = dir } else registry).directory
            ≡ (if active then dir else registry.directory)
      written true dir = refl
      written false dir = refl

  pub bind_identity-directory :
      (event_id : Uuid) (b : IdentityBinding) (actor reason : Text) (registry registry' : Registry)
      (event : AuthorityLifecycleEvent)
      → bind_identity uuid5 isoformat json_time str event_id b actor reason registry
        ≡ ok (event, registry')
      → (any
            (λ row. bindings_overlap row b)
            (bindings_of b.provider b.external_subject registry.directory)
          ≡ false)
        × (registry'.directory
            ≡ record registry.directory { bindings = registry.directory.bindings ++ b ∷ [] })
  unfolding bind_identity
  bind_identity-directory event_id b actor reason registry registry' event h =
      let (given, h₁) = >>-eq-ok (is_blank (strip reason)) reason_missing _ h in
      let (principal, found, h₂) =
        >>=-eq-ok
          (or_raise (get_principal b.principal_id registry.directory) bound_to_inactive_principal) _
          h₁ in
      let (apart, h₃) =
        >>-eq-ok
          (any (λ row. bindings_overlap row b)
            (bindings_of b.provider b.external_subject registry.directory))
          binding_overlaps _ h₂ in
      let (new, h₄) =
        >>-eq-ok (any (has_id binding_validity b.binding_id) registry.directory.bindings)
          integrity_error _ h₃ in
      (apart, record_event-directory _ event _ registry' h₄)
