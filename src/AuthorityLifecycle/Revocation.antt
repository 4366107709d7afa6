-- ===== src/AuthorityLifecycle/Revocation.antt =====
-- The ends that authority_lifecycle.py gives to roles and identities, against authority.py.
use administrative_orchestra.Authority.{delegation_invalid, roles_for}
use administrative_orchestra.Authority.Roles.{asks, asks_err}
use administrative_orchestra.AuthorityLifecycle.Directories.{expire_validity-directory}
use administrative_orchestra.AuthorityLifecycle.Emptied.{expired_at_start}
use administrative_orchestra.AuthorityLifecycle.Events.{AuthorityLifecycleEvent, Registry}
use administrative_orchestra.AuthorityLifecycle.Operations.{
  Command, assignment_fields, assignment_validity, delegation_fields, delegation_validity,
  expire_delegation, expire_role_assignment,
}
use administrative_orchestra.AuthorityLifecycle.Shrinking.{
  roles-expire_assignment, roles-expire_delegation, without_assignment, without_delegation,
}
use administrative_orchestra.Base.{
  All, All-mp, Any, Text, Timestamp, Uuid, ap, arith, err, ltb, ok, true, ◌∙◌, ◌≡◌,
}
use administrative_orchestra.Domain.{Delegation}

module _ (uuid5 : Text → Uuid) (isoformat json_time : Timestamp → Text) (str : Uuid → Text)
    (id : Uuid) (command : Command) (registry registry' : Registry)
    (event : AuthorityLifecycleEvent) (principal scope : Text) (at : Timestamp) (role : Text) where
  -- After a role assignment is expired, the question whether a principal holds a role has, at every
  -- time from the time of the call on, the answer that it would have if the assignment did not
  -- exist, and at every time before the answer that it had. Where the roles cannot be read, both
  -- sides raise.
  pub expire_role_assignment_roles :
      expire_role_assignment uuid5 isoformat json_time str id command registry
        ≡ ok (event, registry')
      → asks scope at role (roles_for principal scope at registry'.directory)
        ≡ asks scope at role
            (roles_for principal scope at (without_assignment at id command.at registry.directory))
  unfolding expire_role_assignment
  expire_role_assignment_roles h =
      ap (λ dir. asks scope at role (roles_for principal scope at dir))
        (expire_validity-directory uuid5 isoformat json_time str assignment_validity
          "role_assignment.expired" "role-assignment"
          (assignment_fields uuid5 isoformat json_time str) (λ dir. dir.assignments)
          (λ rows dir. record dir { assignments = rows }) id command registry registry' event h)
      ∙ roles-expire_assignment scope at id command.at principal role registry.directory

  -- After a delegation whose window is not empty is expired at a time after its start, the question
  -- whether a principal holds a role has, at every time from the time of the call on, the answer
  -- that it would have if the delegation did not exist, and at every time before the answer that it
  -- had. Where the roles cannot be read, both sides raise.
  pub expire_delegation_roles :
      All
        (λ d.
          d.delegation_id ≡ id
          → (ltb d.valid_from command.at ≡ true) × (ltb d.valid_from d.valid_until ≡ true))
        registry.directory.delegations
      → expire_delegation uuid5 isoformat json_time str id command registry ≡ ok (event, registry')
      → asks scope at role (roles_for principal scope at registry'.directory)
        ≡ asks scope at role
            (roles_for principal scope at (without_delegation at id command.at registry.directory))
  unfolding expire_delegation
  expire_delegation_roles proper h =
      ap (λ dir. asks scope at role (roles_for principal scope at dir))
        (expire_validity-directory uuid5 isoformat json_time str delegation_validity
          "delegation.expired" "delegation" (delegation_fields uuid5 isoformat json_time str)
          (λ dir. dir.delegations) (λ rows dir. record dir { delegations = rows }) id command
          registry registry' event h)
      ∙ roles-expire_delegation scope at id command.at principal role registry.directory
          (All-mp _ _ registry.directory.delegations (λ d p same. p (ground (arith, same))) proper)

  -- If a call returns that expires a delegation, whose window is not empty, at exactly the start of
  -- that window, then the roles of the delegate cannot be read any more, at any time and in any
  -- scope: the read raises, since the rebuilt row is invalid.
  pub expire_delegation_at_start :
      (d : Delegation)
      → Any (λ x. x ≡ d) registry.directory.delegations
      → d.delegation_id ≡ id
      → d.valid_from ≡ command.at
      → ltb d.valid_from d.valid_until ≡ true
      → expire_delegation uuid5 isoformat json_time str id command registry ≡ ok (event, registry')
      → roles_for d.to_principal_id scope at registry'.directory ≡ err delegation_invalid
  unfolding expire_delegation
  expire_delegation_at_start d m i f w h =
      asks_err scope at role (roles_for d.to_principal_id scope at registry'.directory)
        delegation_invalid
        (ap (λ dir. asks scope at role (roles_for d.to_principal_id scope at dir))
            (expire_validity-directory uuid5 isoformat json_time str delegation_validity
              "delegation.expired" "delegation" (delegation_fields uuid5 isoformat json_time str)
              (λ dir. dir.delegations) (λ rows dir. record dir { delegations = rows }) id command
              registry registry' event h)
          ∙ expired_at_start scope at id command.at role registry.directory d m i f w)
