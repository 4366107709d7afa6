-- ===== src/Transactions/Append.antt =====
-- append_assessment of transaction_repository.py against the chains.
use administrative_orchestra.Base.{
  >>=-eq-ok, All-mp, Bool, Bool-cases, List, Option, Option-cases, Text, Timestamp, Uuid, [], any,
  any-keep, arith, beq_refl, false, if-eq-ok, inl, inr, keep, list_eq, nat_eq, none, none_any, not,
  ok, ok_injective, option_eq, refl, some, string_eq, subst, sym, true, ◌&&◌, ◌==◌, ◌∙◌, ◌∷◌, ◌≡◌,
  ◌⊎◌,
}
use administrative_orchestra.Transactions.Chains.{
  Assessment, Chained, clash, group_sym, group_trans, is_current, keeps_group,
}
use administrative_orchestra.Transactions.Links.{
  Chained-add, Fits, not_stored, only_one, parted, stored_is,
}
use administrative_orchestra.Transactions.Records.{
  TransactionQualificationResult, TransactionStore, result_eq,
}
use administrative_orchestra.Transactions.Store.{
  append_assessment, assess_or_restore, assessment_added, check_supersession, get_assessment,
  is_superseded, same_assessment, same_group,
}

any_kept :
    (p q : Assessment → Bool) (rows : List Assessment)
    → any p (keep q rows) ≡ true
    → any p rows ≡ true
any_kept p q [] h = h
any_kept p q (r ∷ rows) h = elim (Bool-cases (q r)) [
  | inl kept ↦ ground (arith, kept, h, any_kept p q rows)
  | inr dropped ↦ ground (arith, dropped, h, any_kept p q rows)
]

-- No current row of the group of `a` is stored.
first_Fits :
    (a : Assessment) (rows : List Assessment)
    → a.supersedes_assessment_id ≡ none
    → get_assessment a.assessment_id rows ≡ none
    → check_supersession a none rows ≡ ok tt
    → Fits a rows
unfolding check_supersession
first_Fits a rows first new h =
    let same_kind = keep (λ r. same_group r a) rows in
    let none_left : any (λ r. not (is_superseded same_kind r.assessment_id)) same_kind ≡ false =
      ground (arith, h) in
    record {
      fresh = not_stored a.assessment_id rows new;
      target_stored = rw first refl;
      target_grouped = All-mp _ _ rows (λ r _. rw first refl) (not_stored a.assessment_id rows new);
      leaves_one =
          All-mp _ _ rows (new_alone same_kind)
            (none_any _ rows (sym (any-keep _ (λ r. same_group r a) rows) ∙ none_left));
    }
  where
    new_alone :
        (same_kind : List Assessment)
        → (r : Assessment)
        → (same_group r a && not (is_superseded (keep (λ s. same_group s a) rows) r.assessment_id))
          ≡ false
        → clash (a ∷ rows) a r ≡ false
    new_alone same_kind r n = elim (Bool-cases (same_group a r)) [
      | inr other ↦ rw other refl
      | inl same ↦
          let was : is_superseded (keep (λ s. same_group s a) rows) r.assessment_id ≡ true =
            ground (arith, group_sym a r same, n) in
          ground (arith, any_kept _ (λ s. same_group s a) rows was)
    ]

-- The row that `a` supersedes is the current one of its group.
next_Fits :
    (a t : Assessment) (rows : List Assessment) (id : Uuid)
    → Chained rows
    → a.supersedes_assessment_id ≡ some id
    → get_assessment a.assessment_id rows ≡ none
    → get_assessment id rows ≡ some t
    → same_group t a ≡ true
    → is_superseded rows id ≡ false
    → Fits a rows
next_Fits a t rows id c next new stored same current = record {
  fresh = not_stored a.assessment_id rows new;
  target_stored = rw next (stored_is id t rows stored).0;
  target_grouped =
      All-mp _ _ rows
        (λ r is_t. elim (Bool-cases (r.assessment_id == id)) [
          | inl it ↦
              subst (λ u. keeps_group a u ≡ true) (sym (is_t it))
                (ground (arith, group_sym t a same))
          | inr other ↦ rw next (ground (arith, other))
        ])
        (only_one id t rows c.distinct stored);
  leaves_one =
      All-mp _ _ rows
        (λ r part. elim (Bool-cases (r.assessment_id == id)) [
          | inl it ↦ rw next (ground (arith, it))
          | inr other ↦ elim (Bool-cases (same_group a r)) [
            | inr apart ↦ rw apart refl
            | inl together ↦
                let t_current : is_current rows t ≡ true =
                  subst (λ i. not (is_superseded rows i) ≡ true)
                    (sym (stored_is id t rows stored).1) (ground (arith, current)) in
                ground (arith, t_current, part other, group_trans t a r same together)
          ]
        ])
        (parted rows id t rows c.apart stored);
}

result_self : (x : TransactionQualificationResult) → (x == x) ≡ true
result_self x = ground arith

same_assessment_refl : (a : Assessment) → same_assessment a a ≡ true
same_assessment_refl a =
    let same_result : (a.result == a.result) ≡ true = result_self a.result in
    ground (
      arith,
      beq_refl a.input_refs,
      beq_refl a.rule_ref,
      same_result,
      beq_refl a.blocking_reasons,
      beq_refl a.supersedes_assessment_id,
      beq_refl a.assessment_kind,
    )

supersession-Fits :
    (a : Assessment) (rows : List Assessment)
    → Chained rows
    → get_assessment a.assessment_id rows ≡ none
    → (u : Unit {0}) → check_supersession a a.supersedes_assessment_id rows ≡ ok u
    → Fits a rows
unfolding check_supersession
supersession-Fits a rows c new u h = elim (Option-cases a.supersedes_assessment_id) [
  | inl first ↦
      first_Fits a rows first new (subst (λ o. check_supersession a o rows ≡ ok u) first h)
  | inr (id, next) ↦ followed id next (subst (λ o. check_supersession a o rows ≡ ok u) next h)
]
  where
    followed :
        (id : Uuid)
        → a.supersedes_assessment_id ≡ some id
        → check_supersession a (some id) rows ≡ ok u
        → Fits a rows
    followed id next h = elim (Option-cases (get_assessment id rows)) [
      | inl missing ↦ ground (arith, missing, h)
      | inr (t, stored) ↦
          next_Fits a t rows id c next new stored (ground (arith, stored, h))
            (ground (arith, stored, h))
    ]

module _ (str : Uuid → Text) (now : Timestamp) (event_id : Uuid) (a r : Assessment)
    (store store' : TransactionStore) where
  -- What a call that returns found: no row with the id, or the same assessment.
  append_assessment-ok :
      append_assessment str now event_id a store ≡ ok (r, store')
      → ((get_assessment a.assessment_id store.assessments ≡ none)
          × ((check_supersession a a.supersedes_assessment_id store.assessments ≡ ok tt)
              × ◌≡◌ {A = Assessment × TransactionStore}
                  (a, assessment_added str now event_id a store)
                  (r, store')))
        ⊎ ((restored : Assessment) × ((get_assessment a.assessment_id store.assessments
                ≡ some restored)
              × ((same_assessment restored a ≡ true)
                  × ◌≡◌ {A = Assessment × TransactionStore} (restored, store) (r, store'))))
  unfolding append_assessment
  append_assessment-ok h = elim (Option-cases (get_assessment a.assessment_id store.assessments)) [
    | inl new ↦
        let (done, fits, e) =
          >>=-eq-ok (check_supersession a a.supersedes_assessment_id store.assessments)
            (λ _. ok (a, assessment_added str now event_id a store)) (after none new) in
        inl (new, (fits, ok_injective _ _ _ refl e))
    | inr (restored, stored) ↦ inr (
      restored,
      (
        stored,
        if-eq-ok (same_assessment restored a) (restored, store) (r, store') _
            (after (some restored) stored),
      ),
    )
  ]
    where
      after :
          (o : Option Assessment)
          → get_assessment a.assessment_id store.assessments ≡ o
          → assess_or_restore str now event_id a store o ≡ ok (r, store')
      after o e = subst (λ o. assess_or_restore str now event_id a store o ≡ ok (r, store')) e h

  -- If the assessments of a store are chained (their ids differ, each supersedes at most a stored one
  -- of its own case, epoch and kind, and each case, epoch and kind has at most one that no other
  -- supersedes), then so are they after a call of append_assessment that returns.
  pub append_assessment-Chained :
      Chained store.assessments
      → append_assessment str now event_id a store ≡ ok (r, store')
      → Chained store'.assessments
  unfolding assessment_added
  append_assessment-Chained c h = elim (append_assessment-ok h) [
    | inl (new, (fits, e)) ↦
        subst (λ p. Chained p.1.assessments) e
          (Chained-add a store.assessments c (supersession-Fits a store.assessments c new tt fits))
    | inr (restored, (stored, (same, e))) ↦ subst (λ p. Chained p.1.assessments) e c
  ]

  -- After a call of append_assessment that returns, a second call with the same assessment, at any
  -- time, returns what the first one returned and leaves the store as it is.
  pub append_assessment-again :
      (later : Timestamp) (event_id' : Uuid)
      → append_assessment str now event_id a store ≡ ok (r, store')
      → append_assessment str later event_id' a store' ≡ ok (r, store')
  unfolding append_assessment assessment_added
  append_assessment-again later event_id' h = elim (append_assessment-ok h) [
    | inl (new, (fits, e)) ↦
        subst (λ p. append_assessment str later event_id' a p.1 ≡ ok p) e
          (rw (beq_refl a.assessment_id) (rw (same_assessment_refl a) refl))
    | inr (restored, (stored, (same, e))) ↦
        subst (λ p. append_assessment str later event_id' a p.1 ≡ ok p) e (rw stored (rw same refl))
  ]
