-- ===== src/Completion/Discharge.antt =====
-- `_assess_obligations` (completion.py) against the contract.
use administrative_orchestra.Authority.{assessed}
use administrative_orchestra.Base.{
  All, Any, Bool-cases, Dict, Option, Text, Uuid, [], any, any_iff, any_intro, any_witness, ap,
  arith, false, inl, inr, keep, keep_intro, keep_mem, lookup, nat_eq, none, option_eq, refl, some,
  str_beq_iff, string_eq, sym, true, ◌&&◌, ◌==◌, ◌↔◌, ◌∙◌, ◌∷◌, ◌≡◌,
}
use administrative_orchestra.Completion.Assessment.{
  assess_obligations, check_all, linked_effect, no_gaps,
}
use administrative_orchestra.Completion.Clearance.{
  all_pass, check_all_clear, effect_does, outcomes_do, passes, reasons_clear,
}
use administrative_orchestra.Completion.Contract.{InForce, IsDischarged, IsEffected, IsFulfillment}
use administrative_orchestra.Completion.Latest.{
  All-index_by, is_some-last_of, last_of, last_of-keep, lookup-index_by,
}
use administrative_orchestra.Completion.Obligations.{
  AdministrativeObligation, EffectObligationLink, ObligationDomainStateFulfillment, is_domain_state,
}
use administrative_orchestra.Completion.Requirements.{
  Evidence, effect_by_id, fulfillment_by_obligation, is_current_fulfillment, is_verified_for,
  link_by_obligation, outcomes_of, realization_by_id, required_kind, required_obligations, serves,
}
use administrative_orchestra.Domain.{
  ConfirmedOutcome, EffectRealizationAssessment, EffectRecord, RealizationDisposition,
  authority_class_beq_iff, is_some, realization_beq_iff, realization_eq,
}

true_is_false : true ≡ false → ⊥
true_is_false h = cc

module _ (v : Evidence) where
  link_of :
      (id : Uuid) → lookup id (link_by_obligation v) ≡ last_of (λ l. id == l.obligation_id) v.links
  unfolding link_by_obligation
  link_of id = lookup-index_by (λ l. l.obligation_id) id v.links

  effect_of : (id : Uuid) → lookup id (effect_by_id v) ≡ last_of (λ e. id == e.effect_id) v.effects
  unfolding effect_by_id
  effect_of id = lookup-index_by (λ e. e.effect_id) id v.effects

  realization_of :
      (id : Uuid)
      → lookup id (realization_by_id v) ≡ last_of (λ r. id == r.assessment_id) v.realizations
  unfolding realization_by_id
  realization_of id = lookup-index_by (λ r. r.assessment_id) id v.realizations

  IsFulfillment-iff :
      (id : Uuid) (f : ObligationDomainStateFulfillment)
      → ((is_current_fulfillment v.obligation_set f && (id == f.obligation_id)) ≡ true)
        ↔ IsFulfillment v id f
  IsFulfillment-iff id f = (
    λ h. record {
      of_obligation = ground (arith, h);
      same_case = ground (arith, h);
      same_epoch = ground (arith, h);
    },
    λ i. ground (arith, i.of_obligation, i.same_case, i.same_epoch),
  )

  fulfilled_iff :
      (id : Uuid)
      → (is_some (lookup id (fulfillment_by_obligation v)) ≡ true)
        ↔ Any (IsFulfillment v id) v.fulfillments
  unfolding fulfillment_by_obligation
  fulfilled_iff id =
      let current = is_current_fulfillment v.obligation_set in
      let found : is_some (lookup id (fulfillment_by_obligation v))
          ≡ any (λ f. current f && (id == f.obligation_id)) v.fulfillments =
        ap is_some (
          lookup-index_by (λ f. f.obligation_id) id (keep current v.fulfillments)
          ∙ last_of-keep (λ f. id == f.obligation_id) current v.fulfillments)
        ∙ is_some-last_of (λ f. current f && (id == f.obligation_id)) v.fulfillments in
      let (into, back) =
        any_iff (λ f. current f && (id == f.obligation_id)) (IsFulfillment v id)
          (IsFulfillment-iff id) v.fulfillments in
      (λ h. into (sym found ∙ h), λ m. found ∙ back m)

  realized_assessment :
      (effect_id : Uuid) (found : Option EffectRealizationAssessment)
      → is_verified_for effect_id found ≡ true
      → (r : EffectRealizationAssessment) × (found ≡ some r)
        × (r.effect_id ≡ effect_id)
        × (r.disposition ≡ RealizationDisposition.verified)
  realized_assessment effect_id none h = cc
  realized_assessment effect_id (some r) h = (
    r,
    refl,
    ground arith,
    ground (arith, realization_beq_iff r.disposition RealizationDisposition.verified),
  )

  linked_by :
      (found : Option EffectObligationLink) {e : EffectRecord}
      → linked_effect v found ≡ some e
      → (l : EffectObligationLink) × (found ≡ some l)
        × (lookup l.effect_id (effect_by_id v) ≡ some e)
  linked_by none h = cc
  linked_by (some l) h = (l, refl, h)

  module _ (id : Uuid) (o : AdministrativeObligation) where
    effected :
        (e : EffectRecord)
        → linked_effect v (lookup id (link_by_obligation v)) ≡ some e
        → serves e o ≡ true
        → outcomes_do v o e.effect_id ≡ true
        → IsEffected v id o
    unfolding outcomes_of
    effected e p s d =
        let (l, linked, planned) = linked_by (lookup id (link_by_obligation v)) p in
        let verified = λ (c : ConfirmedOutcome).
          is_verified_for e.effect_id (lookup c.realization_assessment_id (realization_by_id v)) in
        let found = keep (λ c. c.effect_id == e.effect_id) v.outcomes in
        let (c, m, q) =
          any_witness verified (keep (λ c. c.outcome_kind == required_kind o) found) d in
        let (n, k) = keep_mem (λ c. c.outcome_kind == required_kind o) c found m in
        let (given, of_effect) = keep_mem (λ c. c.effect_id == e.effect_id) c v.outcomes n in
        let (r, assessed, realizes, done) =
          realized_assessment e.effect_id (lookup c.realization_assessment_id (realization_by_id v))
            q in
        record {
          link = l;
          linked = sym (link_of id) ∙ linked;
          effect = e;
          planned = sym (effect_of l.effect_id) ∙ planned;
          same_system = ground (arith, str_beq_iff e.target_system o.target_system);
          same_operation = ground (arith, str_beq_iff e.operation o.required_operation);
          same_subject = ground (arith, str_beq_iff e.subject_ref o.subject_ref);
          same_class = ground (arith, authority_class_beq_iff e.authority_class o.authority_class);
          outcome = c;
          confirmed = given;
          of_effect = ground arith;
          of_kind = (str_beq_iff c.outcome_kind (required_kind o)).0 k;
          realization = r;
          assessed = sym (realization_of c.realization_assessment_id) ∙ assessed;
          realizes = realizes;
          verified = done;
        }

    does-IsEffected :
        (found : Option EffectRecord)
        → linked_effect v (lookup id (link_by_obligation v)) ≡ found
        → effect_does v o found ≡ true
        → IsEffected v id o
    does-IsEffected none p h = cc
    does-IsEffected (some e) p h = effected e p (ground arith) (ground arith)

    effected_does :
        IsEffected v id o
        → effect_does v o (linked_effect v (lookup id (link_by_obligation v))) ≡ true
    unfolding outcomes_of
    effected_does i =
        let c = i.outcome in
        let e = i.effect in
        let kind : (c.outcome_kind == required_kind o) ≡ true =
          (str_beq_iff c.outcome_kind (required_kind o)).1 i.of_kind in
        let of : (c.effect_id == e.effect_id) ≡ true = ground (arith, i.of_effect) in
        let realized : is_verified_for e.effect_id
              (lookup c.realization_assessment_id (realization_by_id v))
            ≡ true =
          rw (realization_of c.realization_assessment_id ∙ i.assessed)
            (ground (arith, i.realizes, i.verified)) in
        let outcomes : outcomes_do v o e.effect_id ≡ true =
          any_intro
            (λ c.
              is_verified_for e.effect_id
                (lookup c.realization_assessment_id (realization_by_id v)))
            c
            (keep (λ c. c.outcome_kind == required_kind o)
              (keep (λ c. c.effect_id == e.effect_id) v.outcomes))
            (keep_intro (λ c. c.outcome_kind == required_kind o) c
              (keep (λ c. c.effect_id == e.effect_id) v.outcomes) kind
              (keep_intro (λ c. c.effect_id == e.effect_id) c v.outcomes of i.confirmed))
            realized in
        let fits : serves e o ≡ true = ground (
          arith,
          str_beq_iff e.target_system o.target_system,
          str_beq_iff e.operation o.required_operation,
          str_beq_iff e.subject_ref o.subject_ref,
          authority_class_beq_iff e.authority_class o.authority_class,
          i.same_system,
          i.same_operation,
          i.same_subject,
          i.same_class,
        ) in
        rw (link_of id ∙ i.linked, effect_of i.link.effect_id ∙ i.planned, fits) outcomes

  entry_passes :
      (entry : Uuid × AdministrativeObligation) → (passes v entry ≡ true) ↔ IsDischarged v entry
  entry_passes (id, o) = elim (Bool-cases (is_domain_state o.fulfillment_kind)) [
    | inl domain ↦ (
      λ h. inl (domain, (fulfilled_iff id).0 (rw domain at h)),
      λ d. rw domain (by_domain domain d),
    )
    | inr external ↦ (
      λ h. inr (
        external,
        does-IsEffected id o (linked_effect v (lookup id (link_by_obligation v))) refl
            (rw external at h),
      ),
      λ d. rw external (by_effect external d),
    )
  ]
    where
      by_domain :
          is_domain_state o.fulfillment_kind ≡ true
          → IsDischarged v (id, o)
          → is_some (lookup id (fulfillment_by_obligation v)) ≡ true
      by_domain domain (inl (k, h)) = (fulfilled_iff id).1 h
      by_domain domain (inr (k, i)) = absurd (true_is_false (sym domain ∙ k))

      by_effect :
          is_domain_state o.fulfillment_kind ≡ false
          → IsDischarged v (id, o)
          → effect_does v o (linked_effect v (lookup id (link_by_obligation v))) ≡ true
      by_effect external (inr (k, i)) = effected_does id o i
      by_effect external (inl (k, h)) = absurd (true_is_false (sym k ∙ external))

  All-IsDischarged :
      (entries : Dict Uuid AdministrativeObligation)
      → (all_pass v entries ≡ true) ↔ All (IsDischarged v) entries
  All-IsDischarged [] = (λ h. tt, λ h. refl)
  All-IsDischarged (e ∷ entries) =
      let (into, back) = entry_passes e in
      let (rest, again) = All-IsDischarged entries in
      (λ h. (into (ground arith), rest (ground arith)), λ (d, ds). both (back d) (again ds))
    where
      both : passes v e ≡ true → all_pass v entries ≡ true → all_pass v (e ∷ entries) ≡ true
      both p q = rw (p, q) refl

  -- The assessment of obligations is satisfied exactly if each required obligation, the last one where
  -- several have one id, is discharged: one of the domain kind by a fulfillment of the obligation for
  -- the case and the epoch of the set, any other by the effect of its last link, which agrees in
  -- system, operation, subject and authority class, with a confirmed outcome of that effect of the
  -- required kind whose realization is verified for the same effect.
  pub assess_obligations_lem :
      (str : Uuid → Text)
      → ((assess_obligations str v).satisfied ≡ true)
        ↔ ((id : Uuid) (o : AdministrativeObligation) → InForce v id o → IsDischarged v (id, o))
  unfolding assess_obligations required_obligations
  assess_obligations_lem str =
      let all = v.obligation_set.obligations in
      let required = required_obligations v in
      let g = check_all v required no_gaps in
      let clear : (assess_obligations str v).satisfied ≡ all_pass v required =
        reasons_clear g ∙ check_all_clear v required no_gaps in
      let (into, back) = All-IsDischarged required in
      let (each, every) =
        All-index_by (IsDischarged v) (λ o. o.obligation_id) (keep (λ o. o.required) all) in
      let last : (id : Uuid)
          → last_of (λ o. id == o.obligation_id) (keep (λ o. o.required) all)
            ≡ last_of (λ o. o.required && (id == o.obligation_id)) all =
        λ id. last_of-keep (λ o. id == o.obligation_id) (λ o. o.required) all in
      (
        λ h id o f. each (into (sym clear ∙ h)) id o (last id ∙ f),
        λ d. clear ∙ back (every (λ id o f. d id o (sym (last id) ∙ f))),
      )
