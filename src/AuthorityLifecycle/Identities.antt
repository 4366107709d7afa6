-- ===== src/AuthorityLifecycle/Identities.antt =====
-- `resolve_identity` of authority.py on the bindings that authority_lifecycle.py keeps.
use administrative_orchestra.Authority.{
  Directory, IdentityBinding, binding_current, get_principal, principal_of_only, resolve_identity,
}
use administrative_orchestra.AuthorityLifecycle.Bindings.{
  AreExclusive, current_overlap, perform_all-AreExclusive,
}
use administrative_orchestra.AuthorityLifecycle.Calls.{Call, perform_all}
use administrative_orchestra.AuthorityLifecycle.Events.{Registry}
use administrative_orchestra.Base.{
  All, All-mp, Bool, Bool-cases, List, Option, Pairwise-keep, Text, Timestamp, Uuid, [], ap, arith,
  find, inl, inr, keep, keep-keep_on, keep_holds, list_eq, nat_eq, none, option_eq, refl, some,
  str_beq_iff, string_eq, true, ◌&&◌, ◌==◌, ◌∙◌, ◌∷◌, ◌≡◌,
}
use administrative_orchestra.Domain.{Principal}

abbrev pub binds : Text → Text → IdentityBinding → Bool
binds provider subject b = (b.provider == provider) && (b.external_subject == subject)

-- The active principal of the binding that is found.
abbrev pub principal_of : Option IdentityBinding → Directory → Option Principal
principal_of none dir = none
principal_of (some b) dir = get_principal b.principal_id dir

abbrev first : List IdentityBinding → Option IdentityBinding
first [] = none
first (b ∷ bs) = some b

first-keep :
    (p : IdentityBinding → Bool) (rows : List IdentityBinding) → first (keep p rows) ≡ find p rows
first-keep p [] = refl
first-keep p (b ∷ rows) = elim (Bool-cases (p b)) [
  | inl it ↦ rw it refl
  | inr other ↦ rw other (first-keep p rows)
]

abbrev pub counts : Text → Text → Timestamp → IdentityBinding → Bool
counts provider subject at b = binds provider subject b && binding_current b at

module _ (provider subject : Text) (at : Timestamp) (dir : Directory) where
  only_first :
      (rows : List IdentityBinding)
      → All (λ b. (counts provider subject at) b ≡ true) rows
      → AreExclusive rows
      → principal_of_only rows dir ≡ principal_of (first rows) dir
  only_first [] c x = refl
  only_first (b ∷ []) c x = refl
  only_first (a ∷ b ∷ rows) c x =
      let overlap = current_overlap a b at (ground (arith, c.0)) (ground (arith, c.1.0)) in
      ground (
        arith,
        overlap,
        x.0.0,
        c.0,
        c.1.0,
        str_beq_iff a.provider provider,
        str_beq_iff b.provider provider,
        str_beq_iff a.external_subject subject,
        str_beq_iff b.external_subject subject,
        str_beq_iff a.provider b.provider,
        str_beq_iff a.external_subject b.external_subject,
      )

  resolve_identity-AreExclusive :
      AreExclusive dir.bindings
      → resolve_identity provider subject at dir
        ≡ principal_of (find (counts provider subject at) dir.bindings) dir
  unfolding resolve_identity
  resolve_identity-AreExclusive x =
      ap (λ rows. principal_of_only rows dir)
        (keep-keep_on (λ b. binding_current b at) (binds provider subject)
          (λ b. binding_current b at) dir.bindings
          (All-mp _ _ dir.bindings (λ b _ _. refl) (keep_all dir.bindings)))
      ∙ only_first (keep (counts provider subject at) dir.bindings)
          (keep_holds (counts provider subject at) dir.bindings)
          (Pairwise-keep _ (counts provider subject at) dir.bindings x)
      ∙ ap (λ b. principal_of b dir) (first-keep (counts provider subject at) dir.bindings)
    where
      keep_all : (rows : List IdentityBinding) → All (λ b. b ≡ b) rows
      keep_all [] = tt
      keep_all (b ∷ rows) = (refl, keep_all rows)

module _ (uuid5 : Text → Uuid) (isoformat json_time : Timestamp → Text) (str : Uuid → Text)
    (calls : List Call) (registry : Registry) (provider subject : Text) (at : Timestamp) where
  -- If no two bindings of one external identity overlap at the start, then after any calls an
  -- identity resolves exactly to the active principal of the binding that is current, whichever
  -- row it is: two bindings never make it ambiguous.
  pub perform_all_resolves :
      AreExclusive registry.directory.bindings
      → resolve_identity provider subject at
          (perform_all uuid5 isoformat json_time str calls registry).directory
        ≡ principal_of
            (find
              (counts provider subject at)
              (perform_all uuid5 isoformat json_time str calls registry).directory.bindings)
            (perform_all uuid5 isoformat json_time str calls registry).directory
  perform_all_resolves x =
      resolve_identity-AreExclusive provider subject at
        (perform_all uuid5 isoformat json_time str calls registry).directory
        (perform_all-AreExclusive uuid5 isoformat json_time str calls registry x)
