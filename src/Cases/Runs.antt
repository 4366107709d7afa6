-- ===== src/Cases/Runs.antt =====
-- Runs of the transitions of service.py, execution_transitions.py and fact_transitions.py.
use administrative_orchestra.Base.{
  >>=-eq-ok, All, Any, Bool, List, Option, Text, Timestamp, [], arith, false, here, inl, inr,
  length, ok, there, true, ◌+◌, ◌∷◌, ◌≡◌, ◌≤◌, ◌⊎◌,
}
use administrative_orchestra.Cases.Invariant.{IsAdmissible, IsValid, apply-IsValid, apply-Moved}
use administrative_orchestra.Cases.Lifecycle.{Action, apply, program, run}
use administrative_orchestra.Cases.Waiting.{ParsedTime}
use administrative_orchestra.Domain.{AdministrativeCase, CaseStatus, DecisionDisposition}

-- Every evaluation of a run has passed its validator.
abbrev pub AllAdmissible : List (Timestamp × Action) → Type 0
AllAdmissible = All (λ s. IsAdmissible s.1)

-- An approving decision that completes the approval.
abbrev pub IsApproval : Timestamp × Action → Type 0
IsApproval (now, Action.decision d approved) =
    (d.disposition ≡ DecisionDisposition.approve) × (approved ≡ true)
IsApproval _ = ⊥

-- The statuses that only an authorized case can come to.
abbrev pub is_active : CaseStatus → Bool
is_active CaseStatus.authorized = true
is_active CaseStatus.waiting = true
is_active CaseStatus.executing = true
is_active CaseStatus.verifying = true
is_active CaseStatus.reconciling = true
is_active CaseStatus.failed = true
is_active _ = false

module _ (from_iso : Text → Option ParsedTime) where
  -- Every case that a run reaches from a valid case is valid, where each policy evaluation of the run
  -- has passed its own validator.
  pub run-IsValid :
      (steps : List (Timestamp × Action)) (c : AdministrativeCase) {d : AdministrativeCase}
      → AllAdmissible steps
      → IsValid c
      → run from_iso steps c ≡ ok d
      → IsValid d
  unfolding run
  run-IsValid [] c adm v h = ground arith
  run-IsValid ((now, a) ∷ steps) c adm v h =
      let (m, e, r) = >>=-eq-ok (apply from_iso now a c) (run from_iso steps) h in
      run-IsValid steps m adm.1 (apply-IsValid from_iso now a c adm.0 v e) r

  -- A run of n steps that succeeds raises the version by exactly n and never lowers the authority
  -- epoch.
  pub run-version :
      (steps : List (Timestamp × Action)) (c : AdministrativeCase) {d : AdministrativeCase}
      → run from_iso steps c ≡ ok d
      → (d.version ≡ c.version + length steps) × (c.authority_epoch ≤ d.authority_epoch)
  unfolding run
  run-version [] c h = ground arith
  run-version ((now, a) ∷ steps) c h =
      let (m, e, r) = >>=-eq-ok (apply from_iso now a c) (run from_iso steps) h in
      omega (arith, apply-Moved from_iso now a c e, run-version steps m r)

  active_step :
      (now : Timestamp) (a : Action) (c : AdministrativeCase) {d : AdministrativeCase}
      → apply from_iso now a c ≡ ok d
      → is_active c.status ≡ false
      → IsApproval (now, a) ⊎ (is_active d.status ≡ false)
  unfolding program
  active_step now (Action.evaluation e) c h i = ground arith
  active_step now a c h i = ground arith

  -- A case that begins before authorization is authorized, waiting, executing, verifying,
  -- reconciling or failed only after a run that holds an approving decision which completed the
  -- approval.
  pub run_active_needs-IsApproval :
      (steps : List (Timestamp × Action)) (c : AdministrativeCase) {d : AdministrativeCase}
      → is_active c.status ≡ false
      → run from_iso steps c ≡ ok d
      → is_active d.status ≡ true
      → Any IsApproval steps
  unfolding run
  run_active_needs-IsApproval [] c i h act = ground arith
  run_active_needs-IsApproval ((now, a) ∷ steps) c i h act =
      let (m, e, r) = >>=-eq-ok (apply from_iso now a c) (run from_iso steps) h in
      elim (active_step now a c e i) [
        | inl found ↦ here found
        | inr still ↦ there (run_active_needs-IsApproval steps m still r act)
      ]
