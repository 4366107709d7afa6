-- ===== src/AuthorityLifecycle/Windows.antt =====
-- Validity windows after `_expire_validity` of authority_lifecycle.py.
use administrative_orchestra.AuthorityLifecycle.Operations.{
  Validity, assignment_validity, binding_validity, delegation_validity, expire_row, expired, has_id,
  is_earlier,
}
use administrative_orchestra.Base.{
  Bool, Bool-cases, Option, Timestamp, Uuid, arith, false, if◌then◌else◌, inl, inr, ltb, nat_eq,
  none, not, option_eq, refl, some, string_eq, subst, true, ◌&&◌, ◌==◌, ◌||◌, ◌≡◌,
}
use administrative_orchestra.Domain.{Delegation, RoleAssignment, within}

-- The row's window contains a time.
abbrev pub current : {Row : Type 0} → Validity Row → Row → Timestamp → Bool
current validity row at = within (validity.valid_from row) (validity.valid_until row) at

-- Closing a window sets its end, and neither its start nor its key.
pub record IsWindow {Row : Type 0} (validity : Validity Row) : Type 0 where
  pub close_key : (at : Timestamp) (r : Row) → validity.key (validity.close at r) ≡ validity.key r
  pub close_from :
      (at : Timestamp) (r : Row) → validity.valid_from (validity.close at r) ≡ validity.valid_from r
  pub close_until :
      (at : Timestamp) (r : Row) → validity.valid_until (validity.close at r) ≡ some at

pub binding-IsWindow : IsWindow binding_validity
binding-IsWindow = record {
  close_key = λ at r. refl;
  close_from = λ at r. refl;
  close_until = λ at r. refl;
}

pub assignment-IsWindow : IsWindow assignment_validity
assignment-IsWindow = record {
  close_key = λ at r. refl;
  close_from = λ at r. refl;
  close_until = λ at r. refl;
}

pub delegation-IsWindow : IsWindow delegation_validity
delegation-IsWindow = record {
  close_key = λ at r. refl;
  close_from = λ at r. refl;
  close_until = λ at r. refl;
}

within_end :
    (from : Timestamp) (until : Option Timestamp) (t at : Timestamp)
    → (if is_earlier t until then within from (some t) at else within from until at)
      ≡ (within from until at && ltb at t)
within_end from none t at = ground arith
within_end from (some until) t at = ground arith

module _ {Row : Type 0} (validity : Validity Row) (w : IsWindow validity) where
  -- The window ends at the time of the call, if it did not end before.
  pub current-expired :
      (t : Timestamp) (r : Row) (at : Timestamp)
      → current validity (expired validity t r) at ≡ (current validity r at && ltb at t)
  current-expired t r at = elim (Bool-cases (is_earlier t (validity.valid_until r))) [
    | inl earlier ↦
        let e = chosen true earlier in rw earlier (rw (w.close_from t r) (rw (w.close_until t r) e))
    | inr later ↦ let e = chosen false later in rw later e
  ]
    where
      chosen :
          (c : Bool)
          → is_earlier t (validity.valid_until r) ≡ c
          → (if c then within (validity.valid_from r) (some t) at else current validity r at)
            ≡ (current validity r at && ltb at t)
      chosen c e =
          subst
            (λ c.
              (if c then within (validity.valid_from r) (some t) at else current validity r at)
              ≡ (current validity r at && ltb at t))
            e (within_end (validity.valid_from r) (validity.valid_until r) t at)

  -- Only the row with the id changes.
  pub current-expire_row :
      (id : Uuid) (t : Timestamp) (r : Row) (at : Timestamp)
      → current validity (expire_row validity id t r) at
        ≡ (current validity r at && (not (has_id validity id r) || ltb at t))
  current-expire_row id t r at = elim (Bool-cases (has_id validity id r)) [
    | inl it ↦ rw it (current-expired t r at)
    | inr other ↦ rw other (ground arith)
  ]

  pub key-expire_row :
      (id : Uuid) (t : Timestamp) (r : Row)
      → validity.key (expire_row validity id t r) ≡ validity.key r
  key-expire_row id t r = elim (Bool-cases (has_id validity id r)) [
    | inr other ↦ rw other refl
    | inl it ↦ elim (Bool-cases (is_earlier t (validity.valid_until r))) [
      | inl earlier ↦ rw it (rw earlier (w.close_key t r))
      | inr later ↦ rw it (rw later refl)
    ]
  ]

-- The fields that expiry does not write.
pub assignment_same :
    (id : Uuid) (t : Timestamp) (a : RoleAssignment)
    → ((expire_row assignment_validity id t a).principal_id ≡ a.principal_id)
      × (((expire_row assignment_validity id t a).role ≡ a.role)
          × ((expire_row assignment_validity id t a).organization_scope ≡ a.organization_scope))
assignment_same id t a = elim (Bool-cases (a.assignment_id == id)) [
  | inr other ↦ rw other (refl, (refl, refl))
  | inl it ↦ elim (Bool-cases (is_earlier t a.valid_until)) [
    | inl earlier ↦ rw it (rw earlier (refl, (refl, refl)))
    | inr later ↦ rw it (rw later (refl, (refl, refl)))
  ]
]

pub delegation_same :
    (id : Uuid) (t : Timestamp) (d : Delegation)
    → ((expire_row delegation_validity id t d).from_principal_id ≡ d.from_principal_id)
      × (((expire_row delegation_validity id t d).to_principal_id ≡ d.to_principal_id)
          × (((expire_row delegation_validity id t d).role ≡ d.role)
              × ((expire_row delegation_validity id t d).organization_scope
                  ≡ d.organization_scope)))
delegation_same id t d = elim (Bool-cases (d.delegation_id == id)) [
  | inr other ↦ rw other (refl, (refl, (refl, refl)))
  | inl it ↦ elim (Bool-cases (ltb t d.valid_until)) [
    | inl earlier ↦ rw it (rw earlier (refl, (refl, (refl, refl))))
    | inr later ↦ rw it (rw later (refl, (refl, (refl, refl))))
  ]
]
