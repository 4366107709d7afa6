-- ===== src/AuthorityLifecycle/Bindings.antt =====
-- The identity bindings of authority_lifecycle.py over time, against `resolve_identity`.
use administrative_orchestra.Authority.{IdentityBinding, PrincipalRow, binding_current}
use administrative_orchestra.AuthorityLifecycle.Calls.{Call, left_by, perform, perform_all}
use administrative_orchestra.AuthorityLifecycle.Directories.{
  bind_identity-directory, deactivate_principal-directory, expire_validity-directory,
}
use administrative_orchestra.AuthorityLifecycle.Events.{AuthorityLifecycleEvent, Recorded, Registry}
use administrative_orchestra.AuthorityLifecycle.Operations.{
  assignment_fields, assignment_validity, binding_fields, binding_validity, bindings_overlap,
  delegation_fields, delegation_validity, ends_by, expire_delegation, expire_identity_binding,
  expire_role_assignment, expire_row, is_earlier,
}
use administrative_orchestra.Base.{
  Bool, Bool-cases, Dict, List, Option, Pairwise, Pairwise-append, Pairwise-map, Text, Timestamp,
  Uuid, [], any-keep, arith, err, false, if◌then◌else◌, inl, inr, leb, list_eq, nat_eq, none,
  none_any, not, ok, option_eq, refl, some, string_eq, subst, sym, true, ◌&&◌, ◌==◌, ◌∙◌, ◌∷◌, ◌≡◌,
}
use administrative_orchestra.Domain.{within}

-- Two bindings of one external identity with windows that overlap.
abbrev pub contend : IdentityBinding → IdentityBinding → Bool
contend a b =
    ((a.provider == b.provider) && (a.external_subject == b.external_subject))
    && bindings_overlap a b

-- No two bindings contend.
abbrev pub AreExclusive : List IdentityBinding → Type 0
AreExclusive = Pairwise (λ a b. contend a b ≡ false)

not_ended :
    (from : Timestamp) (until : Option Timestamp) (at other : Timestamp)
    → within from until at ≡ true
    → leb other at ≡ true
    → ends_by until other ≡ false
not_ended from none at other p q = refl
not_ended from (some until) at other p q = ground arith

started :
    (from : Timestamp) (until : Option Timestamp) (at : Timestamp)
    → within from until at ≡ true
    → leb from at ≡ true
started from none at p = p
started from (some until) at p = ground arith

-- Bindings that are current at one time overlap.
pub current_overlap :
    (a b : IdentityBinding) (at : Timestamp)
    → binding_current a at ≡ true
    → binding_current b at ≡ true
    → bindings_overlap a b ≡ true
unfolding bindings_overlap
current_overlap a b at p q =
    rw
      (not_ended a.valid_from a.valid_until at b.valid_from p
        (started b.valid_from b.valid_until at q))
      (rw
        (not_ended b.valid_from b.valid_until at a.valid_from q
          (started a.valid_from a.valid_until at p))
        refl)

fewer :
    (s x y x' y' : Bool)
    → (s && (not x && not y)) ≡ false
    → (x ≡ true → x' ≡ true)
    → (y ≡ true → y' ≡ true)
    → (s && (not x' && not y')) ≡ false
fewer false x y x' y' h f g = refl
fewer true true y x' y' h f g = rw (f refl) refl
fewer true false true true y' h f g = refl
fewer true false true false y' h f g = rw (g refl) refl
fewer true false false x' y' h f g = cc

module _ (id : Uuid) (t : Timestamp) where
  abbrev after : IdentityBinding → IdentityBinding
  after = expire_row binding_validity id t

  ends_earlier :
      (until : Option Timestamp) (from : Timestamp)
      → is_earlier t until ≡ true
      → ends_by until from ≡ true
      → leb t from ≡ true
  ends_earlier none from e h = ground arith
  ends_earlier (some until) from e h = ground arith

  -- What expiry keeps of a binding, and that its window ends no later.
  expire_binding :
      (b : IdentityBinding)
      → ((after b).provider ≡ b.provider)
        × (((after b).external_subject ≡ b.external_subject)
            × (((after b).valid_from ≡ b.valid_from)
                × ((from : Timestamp)
                    → ends_by b.valid_until from ≡ true
                    → ends_by (after b).valid_until from ≡ true)))
  expire_binding b = elim (Bool-cases (b.binding_id == id)) [
    | inr other ↦ rw other (refl, (refl, (refl, λ from h. h)))
    | inl it ↦ elim (Bool-cases (is_earlier t b.valid_until)) [
      | inl earlier ↦ rw it (rw earlier (refl, (refl, (refl, ends_earlier' b.valid_until earlier))))
      | inr later ↦ rw it (rw later (refl, (refl, (refl, λ from h. h))))
    ]
  ]
    where
      ends_earlier' :
          (until : Option Timestamp)
          → is_earlier t until ≡ true
          → (from : Timestamp) → ends_by until from ≡ true
          → leb t from ≡ true
      ends_earlier' until e from h = ends_earlier until from e h

  -- An earlier end leaves no new overlap.
  contend-expire :
      (a b : IdentityBinding) → contend a b ≡ false → contend (after a) (after b) ≡ false
  unfolding bindings_overlap
  contend-expire a b h = rw (expire_binding a).0 (
      rw (expire_binding b).0 (
        rw (expire_binding a).1.0 (
          rw (expire_binding b).1.0 (
            rw (expire_binding a).1.1.0 (
              rw (expire_binding b).1.1.0 (
                fewer ((a.provider == b.provider) && (a.external_subject == b.external_subject))
                  (ends_by a.valid_until b.valid_from) (ends_by b.valid_until a.valid_from) _ _ h
                  ((expire_binding a).1.1.1 b.valid_from)
                  ((expire_binding b).1.1.1 a.valid_from)))))))

module _ (uuid5 : Text → Uuid) (isoformat json_time : Timestamp → Text) (str : Uuid → Text) where
  perform-AreExclusive :
      (call : Call) (registry registry' : Registry) (event : AuthorityLifecycleEvent)
      → AreExclusive registry.directory.bindings
      → perform uuid5 isoformat json_time str call registry ≡ ok (event, registry')
      → AreExclusive registry'.directory.bindings
  unfolding expire_identity_binding expire_role_assignment expire_delegation
  perform-AreExclusive (Call.deactivate id command) registry registry' event x h =
      let (row, (found, e)) =
        deactivate_principal-directory uuid5 isoformat json_time str id command registry registry'
          event h in
      subst (λ dir. AreExclusive dir.bindings) (sym e) (unwritten row.active _ x)
    where
      unwritten :
          (active : Bool) (principals : Dict Text PrincipalRow)
          → AreExclusive registry.directory.bindings
          → AreExclusive
              (if active
                then record registry.directory { principals = principals }
                else registry.directory).bindings
      unwritten true principals x = x
      unwritten false principals x = x
  perform-AreExclusive (Call.expire_binding id command) registry registry' event x h =
      subst (λ dir. AreExclusive dir.bindings)
        (sym (
          expire_validity-directory uuid5 isoformat json_time str binding_validity
            "identity_binding.revoked" "identity-binding"
            (binding_fields uuid5 isoformat json_time str) (λ dir. dir.bindings)
            (λ rows dir. record dir { bindings = rows }) id command registry registry' event h))
        (Pairwise-map _ (expire_row binding_validity id command.at) registry.directory.bindings
          (contend-expire id command.at) x)
  perform-AreExclusive (Call.expire_assignment id command) registry registry' event x h =
      subst (λ dir. AreExclusive dir.bindings)
        (sym (
          expire_validity-directory uuid5 isoformat json_time str assignment_validity
            "role_assignment.expired" "role-assignment"
            (assignment_fields uuid5 isoformat json_time str) (λ dir. dir.assignments)
            (λ rows dir. record dir { assignments = rows }) id command registry registry' event h))
        x
  perform-AreExclusive (Call.expire_grant id command) registry registry' event x h =
      subst (λ dir. AreExclusive dir.bindings)
        (sym (
          expire_validity-directory uuid5 isoformat json_time str delegation_validity
            "delegation.expired" "delegation" (delegation_fields uuid5 isoformat json_time str)
            (λ dir. dir.delegations) (λ rows dir. record dir { delegations = rows }) id command
            registry registry' event h))
        x
  perform-AreExclusive (Call.bind event_id b actor reason) registry registry' event x h =
      let (apart, e) =
        bind_identity-directory uuid5 isoformat json_time str event_id b actor reason registry
          registry' event h in
      subst (λ dir. AreExclusive dir.bindings) (sym e)
        (Pairwise-append _ registry.directory.bindings b x (
          none_any (λ row. contend row b) registry.directory.bindings
            (sym (
                any-keep (λ row. bindings_overlap row b)
                  (λ row.
                    (row.provider == b.provider) && (row.external_subject == b.external_subject))
                  registry.directory.bindings)
              ∙ apart)))

  pub perform_all-AreExclusive :
      (calls : List Call) (registry : Registry)
      → AreExclusive registry.directory.bindings
      → AreExclusive (perform_all uuid5 isoformat json_time str calls registry).directory.bindings
  perform_all-AreExclusive [] registry x = x
  perform_all-AreExclusive (call ∷ calls) registry x =
      perform_all-AreExclusive calls _
        (after_one (perform uuid5 isoformat json_time str call registry) refl)
    where
      after_one :
          (o : Recorded)
          → perform uuid5 isoformat json_time str call registry ≡ o
          → AreExclusive (left_by uuid5 isoformat json_time str registry o).directory.bindings
      after_one (ok (event, registry')) e = perform-AreExclusive call registry registry' event x e
      after_one (err raised) e = x
