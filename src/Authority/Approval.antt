-- ===== src/Authority/Approval.antt =====
-- `assess_approval_satisfaction` (authority.py) against what an approval is to rest on.
use administrative_orchestra.Authority.Decisions.{
  SatisfactionName, assess_approval_satisfaction, assessed, candidates, counts_for, is_among,
  qualified,
}
use administrative_orchestra.Authority.Records.{ApprovalAssessment, Directory}
use administrative_orchestra.Authority.Registry.{roles_for}
use administrative_orchestra.Authority.Search.{
  Assigns, principals-append, principals_of, select_lem,
}
use administrative_orchestra.Authority.Selection.{select_role_decisions}
use administrative_orchestra.Base.{
  >>=-eq-ok, Any, Bool, Bool-cases, List, Text, Timestamp, Uuid, [], arith, contains,
  contains-append, false, here, if◌then◌else◌, inl, inr, is_empty, keep, keep_mem, list_eq, map,
  nat_eq, ok, ok_injective, option_beq_iff, option_eq, refl, some, str_beq_iff, string_eq, subst,
  sym, there, true, ℕ, ◌++◌, ◌==◌, ◌∷◌, ◌≡◌,
}
use administrative_orchestra.Domain.{
  Decision, DecisionDisposition, PolicyRef, decision_beq_iff, decision_eq, policy_beq_iff,
  policy_eq,
}
use administrative_orchestra.Policy.{PolicyEvaluation}

-- No principal stands twice.
abbrev pub IsDistinct : List Text → Type 0
IsDistinct [] = Unit
IsDistinct (p ∷ ps) = (contains ps p ≡ false) × IsDistinct ps

module _ (candidates : Text → List Decision) where
  -- A used principal is not used again.
  not_reused :
      (roles : List Text) (before ds : List Decision) (p : Text)
      → Assigns true candidates roles before ds
      → contains (principals_of before) p ≡ true
      → contains (principals_of ds) p ≡ false
  not_reused [] before ds p a h = rw a refl
  not_reused (role ∷ roles) before [] p a h = absurd a
  not_reused (role ∷ roles) before (d ∷ ds) p (m, new, rest) h = ground (
    arith,
    principals-append before d,
    contains-append (principals_of before) d.principal_id p,
    str_beq_iff p d.principal_id,
    not_reused roles (before ++ d ∷ []) ds p rest,
  )

  Assigns-IsDistinct :
      (roles : List Text) (before ds : List Decision)
      → Assigns true candidates roles before ds
      → IsDistinct (principals_of ds)
  Assigns-IsDistinct [] before ds a = rw a tt
  Assigns-IsDistinct (role ∷ roles) before [] a = absurd a
  Assigns-IsDistinct (role ∷ roles) before (d ∷ ds) (m, new, rest) = (
    not_reused roles (before ++ d ∷ []) ds d.principal_id rest (
        ground (
          arith,
          principals-append before d,
          contains-append (principals_of before) d.principal_id d.principal_id,
          str_beq_iff d.principal_id d.principal_id,
        )),
    Assigns-IsDistinct roles (before ++ d ∷ []) ds rest,
  )

module _ (dir : Directory) (case_id : Uuid) (authority_epoch : ℕ) (policy_ref : PolicyRef)
    (scope : Text) (decisions : List Decision) where
  -- A decision of the list that approves this case in this epoch under this policy, in a role that
  -- its author held when deciding.
  pub record IsSupported (role : Text) (d : Decision) : Type 0 where
    pub given : Any (λ x. x ≡ d) decisions
    pub same_case : d.case_id ≡ case_id
    pub same_epoch : d.authority_epoch ≡ authority_epoch
    pub same_policy : d.policy_ref ≡ policy_ref
    pub approves : d.disposition ≡ DecisionDisposition.approve
    pub in_role : d.decision_role ≡ some role
    pub roles : List Text
    pub held : roles_for d.principal_id scope d.decided_at dir ≡ ok roles
    pub has_role : contains roles role ≡ true

  -- Each role has its decision, in order.
  abbrev pub AreSupported : List Text → List Decision → Type 0
  AreSupported [] ds = ds ≡ []
  AreSupported (role ∷ roles) [] = ⊥
  AreSupported (role ∷ roles) (d ∷ ds) = IsSupported role d × AreSupported roles ds

  -- A given decision that counts, in a role that its author held.
  abbrev Qualifies : List Text → List Decision → Decision → Type 0
  Qualifies roles given d =
      Any (λ x. x ≡ d) given
      × ((counts_for dir case_id authority_epoch policy_ref scope roles d ≡ true)
          × ((held : List Text) × ((roles_for d.principal_id scope d.decided_at dir ≡ ok held)
                × (is_among held d.decision_role ≡ true))))

  -- Chosen decisions are given ones that count, by principals with the role.
  qualified-Any :
      (roles : List Text) (given chosen : List Decision) (d : Decision)
      → qualified dir case_id authority_epoch policy_ref scope roles given ≡ ok chosen
      → Any (λ x. x ≡ d) chosen
      → Qualifies roles given d
  unfolding qualified
  qualified-Any roles [] chosen d h m =
      elim (subst (Any (λ x. x ≡ d)) (sym (ok_injective [] chosen _ refl h)) m) [ ]
  qualified-Any roles (x ∷ given) chosen d h m =
      elim (Bool-cases (counts_for dir case_id authority_epoch policy_ref scope roles x)) [
        | inr passed ↦
            let (n, rest) = qualified-Any roles given chosen d (rw passed at h) m in (there n, rest)
        | inl counts ↦
            let (held, e, h₁) =
              >>=-eq-ok (roles_for x.principal_id scope x.decided_at dir) _ (rw counts at h) in
            let (kept, later, h₂) =
              >>=-eq-ok (qualified dir case_id authority_epoch policy_ref scope roles given) _ h₁ in
            let is_chosen = ok_injective _ chosen _ refl h₂ in
            by_role counts held e kept (λ n. qualified-Any roles given kept d later n)
              (is_among held x.decision_role) refl (subst (Any (λ x. x ≡ d)) (sym is_chosen) m)
      ]
    where
      by_role :
          counts_for dir case_id authority_epoch policy_ref scope roles x ≡ true
          → (held : List Text) → roles_for x.principal_id scope x.decided_at dir ≡ ok held
          → (kept : List Decision) → (Any (λ x. x ≡ d) kept → Qualifies roles given d)
          → (b : Bool) → is_among held x.decision_role ≡ b
          → Any (λ x. x ≡ d) (if b then x ∷ kept else kept)
          → Qualifies roles (x ∷ given) d
      by_role counts held e kept again true among (here p) =
          subst (λ y. Qualifies roles (x ∷ given) y) p (here refl, (counts, (held, (e, among))))
      by_role counts held e kept again true among (there n) =
          let (k, rest) = again n in (there k, rest)
      by_role counts held e kept again false among n = let (k, rest) = again n in (there k, rest)

  chosen-IsSupported :
      (roles : List Text) (chosen : List Decision) (role : Text) (d : Decision)
      → qualified dir case_id authority_epoch policy_ref scope roles decisions ≡ ok chosen
      → Any (λ x. x ≡ d) (candidates dir case_id authority_epoch policy_ref scope chosen role)
      → IsSupported role d
  unfolding counts_for
  chosen-IsSupported roles chosen role d h m =
      let (n, in_role) = keep_mem (λ x. x.decision_role == some role) d chosen m in
      let (given, (counts, (held, (e, among)))) = qualified-Any roles decisions chosen d h n in
      let is_role : d.decision_role ≡ some role =
        (option_beq_iff d.decision_role (some role)).0 in_role in
      record {
        given = given;
        same_case = ground (arith, counts);
        same_epoch = ground (arith, counts);
        same_policy = ground (arith, counts, policy_beq_iff d.policy_ref policy_ref);
        approves =
            ground (arith, counts, decision_beq_iff d.disposition DecisionDisposition.approve);
        in_role = is_role;
        roles = held;
        held = e;
        has_role = subst (λ o. is_among held o ≡ true) is_role among;
      }

  Assigns-AreSupported :
      (required : List Text) (chosen : List Decision)
      → qualified dir case_id authority_epoch policy_ref scope required decisions ≡ ok chosen
      → (distinct : Bool) (roles : List Text) (before ds : List Decision)
      → Assigns distinct
          (candidates dir case_id authority_epoch policy_ref scope chosen)
          roles
          before
          ds
      → AreSupported roles ds
  Assigns-AreSupported required chosen h distinct [] before ds a = a
  Assigns-AreSupported required chosen h distinct (role ∷ roles) before [] a = absurd a
  Assigns-AreSupported required chosen h distinct (role ∷ roles) before (d ∷ ds) (m, new, rest) = (
    chosen-IsSupported required chosen role d h m,
    Assigns-AreSupported required chosen h distinct roles (before ++ d ∷ []) ds rest,
  )

  module _ (uuid5 : SatisfactionName → Uuid) (evaluation : PolicyEvaluation) (now : Timestamp) where
    abbrev roles : List Text
    roles = evaluation.required_decision_roles

    abbrev distinct : Bool
    distinct = evaluation.require_distinct_decision_principals

    unmet : false ≡ true → ⊥
    unmet h = cc

    abbrev pool : List Decision → Text → List Decision
    pool = candidates dir case_id authority_epoch policy_ref scope

    abbrev searched : List Decision → ApprovalAssessment
    searched chosen =
        assessed dir case_id authority_epoch policy_ref scope uuid5 roles distinct now
          (select_role_decisions roles (pool chosen) distinct)

    from_search :
        (chosen : List Decision)
        → qualified dir case_id authority_epoch policy_ref scope roles decisions ≡ ok chosen
        → (searched chosen).satisfied ≡ true
        → (ds : List Decision) × ((searched chosen).selected_decision_ids
            ≡ map (λ d. d.decision_id) ds)
          × AreSupported roles ds
          × (distinct ≡ true → IsDistinct (principals_of ds))
    unfolding assessed
    from_search chosen q h = elim (select_lem distinct (pool chosen) roles) [
      | inl (ds, e, a) ↦ (
        ds,
        rw (e, assessed) refl,
        Assigns-AreSupported roles chosen q distinct roles [] ds a,
        λ t.
            Assigns-IsDistinct (pool chosen) roles [] ds
              (subst (λ b. Assigns b (pool chosen) roles [] ds) t a),
      )
      | inr (e, refuted) ↦ absurd (unmet (rw (e, assessed) at h))
    ]

    -- If the assessment returns and is satisfied, then its selected decisions are one for each
    -- required role, in order, each a given approval of the case, epoch and policy in that role, by
    -- a principal who held the role when deciding; and, where the policy wants distinct principals,
    -- no principal stands twice.
    pub approval_supported :
        {assessment : ApprovalAssessment}
        → assess_approval_satisfaction dir case_id authority_epoch policy_ref scope uuid5 evaluation
            decisions now
          ≡ ok assessment
        → assessment.satisfied ≡ true
        → (ds : List Decision) × (assessment.selected_decision_ids ≡ map (λ d. d.decision_id) ds)
          × AreSupported evaluation.required_decision_roles ds
          × (evaluation.require_distinct_decision_principals ≡ true → IsDistinct (principals_of ds))
    unfolding assess_approval_satisfaction
    approval_supported {assessment} r h =
        let (chosen, q, r₁) =
          >>=-eq-ok (qualified dir case_id authority_epoch policy_ref scope roles decisions) _ r in
        let is_it = ok_injective _ assessment _ refl r₁ in
        let h' = subst (λ a. a.satisfied ≡ true) (sym is_it) h in
        subst {A = ApprovalAssessment}
          (λ a.
            (ds : List Decision) × (a.selected_decision_ids ≡ map (λ d. d.decision_id) ds)
            × AreSupported roles ds
            × (distinct ≡ true → IsDistinct (principals_of ds)))
          is_it
          (elim (Bool-cases (is_empty (keep (λ role. is_empty (pool chosen role)) roles))) [
            | inr lacking ↦ absurd (unmet (rw lacking at h'))
            | inl complete ↦ rw complete (from_search chosen q (rw complete at h'))
          ])
