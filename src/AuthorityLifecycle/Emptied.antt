-- ===== src/AuthorityLifecycle/Emptied.antt =====
-- The roles of a delegate after an expiry of authority_lifecycle.py that empties a window.
use administrative_orchestra.Authority.{Directory, delegation_invalid, roles_for}
use administrative_orchestra.Authority.Roles.{
  asks, asks-roles_for, assignment_gives, delegation_gives, is_void,
}
use administrative_orchestra.AuthorityLifecycle.Operations.{delegation_validity, expire_row}
use administrative_orchestra.AuthorityLifecycle.Shrinking.{any-map}
use administrative_orchestra.AuthorityLifecycle.Windows.{delegation_same}
use administrative_orchestra.Base.{
  Any, Text, Timestamp, Uuid, any, any-keep, any_intro, ap, arith, beq_refl, err, if◌then◌else◌,
  keep, leb, ltb, map, nat_eq, ok, option_eq, string_eq, true, ◌&&◌, ◌==◌, ◌||◌, ◌∙◌, ◌≡◌,
}
use administrative_orchestra.Domain.{Delegation}

-- Expiry at the start of a window empties it.
pub expired_at_start :
    (scope : Text) (at : Timestamp) (id : Uuid) (t : Timestamp) (role : Text) (dir : Directory)
    (d : Delegation)
    → Any (λ x. x ≡ d) dir.delegations
    → d.delegation_id ≡ id
    → d.valid_from ≡ t
    → ltb d.valid_from d.valid_until ≡ true
    → asks scope at role (
        roles_for d.to_principal_id scope at
          (record dir { delegations = map (expire_row delegation_validity id t) dir.delegations }))
      ≡ err delegation_invalid
expired_at_start scope at id t role dir d m i f w =
    let after = record dir {
      delegations = map (expire_row delegation_validity id t) dir.delegations;
    } in
    let same = delegation_same id t d in
    let it : (d.delegation_id == id) ≡ true = ground (arith, i) in
    let earlier : ltb t d.valid_until ≡ true = ground (arith, f, w) in
    let emptied : leb (expire_row delegation_validity id t d).valid_until
          (expire_row delegation_validity id t d).valid_from
        ≡ true =
      rw it (rw earlier (ground (arith, f))) in
    let void : ((expire_row delegation_validity id t d).to_principal_id == d.to_principal_id)
          && leb (expire_row delegation_validity id t d).valid_until
              (expire_row delegation_validity id t d).valid_from
        ≡ true =
      rw same.1.0 (rw (beq_refl d.to_principal_id) emptied) in
    asks-roles_for scope at role after d.to_principal_id
    ∙ ap
        (λ void.
          if void
          then err delegation_invalid
          else ok (
              any (delegation_gives scope at role after)
                (keep (λ x. x.to_principal_id == d.to_principal_id) after.delegations)
              || any (assignment_gives scope at role)
                  (keep (λ a. a.principal_id == d.to_principal_id) dir.assignments)))
        (any-keep (is_void scope at role) (λ x. x.to_principal_id == d.to_principal_id)
            after.delegations
          ∙ any-map (expire_row delegation_validity id t) _ dir.delegations
          ∙ any_intro _ d dir.delegations m void)
