-- ===== src/Completion/Clearance.antt =====
-- The five lists of `_assess_obligations` (completion.py), and a test of each required obligation.
use administrative_orchestra.Base.{
  Bool, Bool-cases, Dict, List, Option, Uuid, [], arith, false, if◌then◌else◌, inl, inr, is_empty,
  keep, lookup, nat_eq, none, option_eq, refl, some, string_eq, true, ◌&&◌, ◌++◌, ◌==◌, ◌∷◌, ◌≡◌,
}
use administrative_orchestra.Completion.Assessment.{
  Gaps, blocking_reasons, check_all, check_effect, check_obligation, check_outcomes, linked_effect,
}
use administrative_orchestra.Completion.Obligations.{AdministrativeObligation, is_domain_state}
use administrative_orchestra.Completion.Requirements.{
  Evidence, fulfillment_by_obligation, is_realized, link_by_obligation, outcomes_of, required_kind,
  serves,
}
use administrative_orchestra.Domain.{EffectRecord, is_some}

abbrev pub is_clear : Gaps → Bool
is_clear g =
    (is_empty g.uncovered && is_empty g.missing_confirmed)
    && (is_empty g.missing_kinds
        && (is_empty g.missing_realizations && is_empty g.missing_domain_state))

is_empty-append {ℓ} : {A : Type ℓ} (xs : List A) (a : A) → is_empty (xs ++ a ∷ []) ≡ false
is_empty-append [] a = refl
is_empty-append (x ∷ xs) a = refl

pub reasons_clear : (g : Gaps) → is_empty (blocking_reasons g) ≡ is_clear g
unfolding blocking_reasons
reasons_clear g = ground arith

-- The test that the loop makes for one obligation, without the lists.
abbrev pub outcomes_do : Evidence → AdministrativeObligation → Uuid → Bool
outcomes_do v o effect_id =
    is_realized effect_id v
      (keep (λ c. c.outcome_kind == required_kind o) (outcomes_of effect_id v))

abbrev pub effect_does : Evidence → AdministrativeObligation → Option EffectRecord → Bool
effect_does v o none = false
effect_does v o (some e) = serves e o && outcomes_do v o e.effect_id

abbrev pub passes : Evidence → Uuid × AdministrativeObligation → Bool
passes v (id, o) =
    if is_domain_state o.fulfillment_kind
    then is_some (lookup id (fulfillment_by_obligation v))
    else effect_does v o (linked_effect v (lookup id (link_by_obligation v)))

check_outcomes_clear :
    (v : Evidence) (id : Uuid) (o : AdministrativeObligation) (effect_id : Uuid) (g : Gaps)
    → is_clear (check_outcomes v id o effect_id g) ≡ (is_clear g && outcomes_do v o effect_id)
unfolding check_outcomes
check_outcomes_clear v id o effect_id g = ground (
  arith,
  is_empty-append g.missing_confirmed id,
  is_empty-append g.missing_kinds (required_kind o),
  is_empty-append g.missing_realizations id,
)

check_effect_clear :
    (v : Evidence) (id : Uuid) (o : AdministrativeObligation) (found : Option EffectRecord)
    (g : Gaps)
    → is_clear (check_effect v id o found g) ≡ (is_clear g && effect_does v o found)
check_effect_clear v id o none g = ground (arith, is_empty-append g.uncovered id)
check_effect_clear v id o (some e) g = elim (Bool-cases (serves e o)) [
  | inl fits ↦ rw (fits, check_outcomes_clear v id o e.effect_id g) refl
  | inr differs ↦ rw differs (ground (arith, is_empty-append g.uncovered id))
]

check_obligation_clear :
    (v : Evidence) (id : Uuid) (o : AdministrativeObligation) (g : Gaps)
    → is_clear (check_obligation v id o g) ≡ (is_clear g && passes v (id, o))
unfolding check_obligation
check_obligation_clear v id o g = elim (Bool-cases (is_domain_state o.fulfillment_kind)) [
  | inl domain ↦ rw domain (ground (arith, is_empty-append g.missing_domain_state id))
  | inr external ↦
      rw external (check_effect_clear v id o (linked_effect v (lookup id (link_by_obligation v))) g)
]

-- Every entry of a dict passes.
abbrev pub all_pass : Evidence → Dict Uuid AdministrativeObligation → Bool
all_pass v [] = true
all_pass v (e ∷ entries) = passes v e && all_pass v entries

pub check_all_clear :
    (v : Evidence) (entries : Dict Uuid AdministrativeObligation) (g : Gaps)
    → is_clear (check_all v entries g) ≡ (is_clear g && all_pass v entries)
unfolding check_all
check_all_clear v [] g = ground arith
check_all_clear v ((id, o) ∷ entries) g =
    ground (
      arith,
      check_all_clear v entries (check_obligation v id o g),
      check_obligation_clear v id o g,
    )
