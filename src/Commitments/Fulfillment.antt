-- ===== src/Commitments/Fulfillment.antt =====
-- What `attest_fulfillment` of commitment_lifecycle.py leaves.
use administrative_orchestra.Base.{
  >>=-eq-ok, Bool, Dict, Outcome, Text, Timestamp, Uuid, [], ap, err, false, if◌then◌else◌, inl,
  inr, map_err, ok, ok_injective, refl, some, subst, sym, true, ℕ, ◌+◌, ◌∙◌, ◌∷◌, ◌≡◌, ◌⊎◌,
}
use administrative_orchestra.Commitments.Effects.{
  IsAttestable, attestable-IsAttestable, found_id, map_err-eq-ok, put_attestation-cases,
  update_case-cases, update_commitment-ok,
}
use administrative_orchestra.Commitments.Lifecycle.{
  Ended, after_attestation, after_update, attest_fulfillment, attest_located, attestable,
  attestation_of, case_closed, close_case, fulfilled_at, returning,
}
use administrative_orchestra.Commitments.Models.{
  CommitmentFulfillmentAttestation, CommitmentRecord, CommitmentState, is_fulfilled,
}
use administrative_orchestra.Commitments.Repository.{
  CommitmentError, CommitmentStore, put_attestation, update_commitment,
}
use administrative_orchestra.Domain.{AdministrativeCase, CaseStatus, Value}
use administrative_orchestra.Persistence.{CaseStore, copied, find_case, update_case}
use administrative_orchestra.Persistence.Copies.{find-copy}

module _ (uuid5 : Text → Uuid) (sha256 : Text → Text) (str : Uuid → Text) (show : ℕ → Text) where
  -- The case as completed in a new version, or as it is if it is completed or cancelled already.
  abbrev pub completed_unless_closed : Timestamp → AdministrativeCase → AdministrativeCase
  completed_unless_closed at c =
      if case_closed c.status
      then c
      else record c { status = CaseStatus.completed; version = c.version + 1; updated_at = at }

  -- The write of the case as completed leaves it completed.
  close_case-completed :
      (at : Timestamp) (case_id : Uuid) (payload : Dict Text Value) (c : AdministrativeCase)
      (store store' : CommitmentStore)
      → find_case case_id store.cases.cases ≡ some c
      → close_case uuid5 sha256 str show at CaseStatus.completed c.authority_epoch
          "commitment.fulfilled" payload c store
        ≡ ok store'
      → find_case case_id store'.cases.cases
        ≡ some
            (record c { status = CaseStatus.completed; version = c.version + 1; updated_at = at })
  close_case-completed at case_id payload c store store' found h =
      let same = found_id case_id store.cases.cases c found in
      let there : find_case c.case_id store.cases.cases ≡ some c =
        subst (λ i. find_case i store.cases.cases ≡ some c) (sym same) found in
      let completed : AdministrativeCase = record c {
        status = CaseStatus.completed;
        version = c.version + 1;
        updated_at = at;
      } in
      let (cases, updated, h₁) =
        >>=-eq-ok
          (map_err CommitmentError.case_not_written
            (update_case at completed c.version "commitment.fulfilled" payload store.cases))
          _ h in
      let cases_are : cases ≡ store'.cases = ap (λ s. s.cases) (ok_injective _ store' _ refl h₁) in
      let written =
        update_case-cases at completed c.version "commitment.fulfilled" payload store.cases cases
          (map_err-eq-ok _ _ updated) in
      let is_copied =
        subst (λ rows. find_case c.case_id rows ≡ some (copied completed c)) (sym written)
          (find-copy c.case_id completed c store.cases.cases there) in
      subst (λ i. find_case i store'.cases.cases ≡ some completed) same
        (subst {A = CaseStore} (λ s. find_case c.case_id s.cases ≡ some completed) cases_are
          is_copied)

  -- The commitment was fulfilled now, in a new version, and its case is completed unless closed.
  abbrev pub FulfilledNow :
      Timestamp
      → Uuid
      → CommitmentStore
      → CommitmentRecord
      → AdministrativeCase
      → CommitmentRecord
      → Type 0
  FulfilledNow at case_id store' m c r =
      (r.state ≡ CommitmentState.fulfilled)
      × ((r.version ≡ m.version + 1)
          × (find_case case_id store'.cases.cases ≡ some (completed_unless_closed at c)))

  -- What a call that returns has found and leaves.
  abbrev pub Attested :
      Timestamp
      → Uuid
      → Text
      → Dict Text Value
      → CommitmentStore
      → CommitmentStore
      → CommitmentRecord
      → Type 0
  Attested at case_id principal basis store store' r =
      (m : CommitmentRecord) × (c : AdministrativeCase) × IsAttestable case_id principal basis store
        m c
      × (((is_fulfilled m.state ≡ true) × ((store ≡ store') × (m ≡ r)))
          ⊎ ((is_fulfilled m.state ≡ false) × FulfilledNow at case_id store' m c r))

  abbrev EndsIn : Ended → CommitmentStore → CommitmentRecord → Type 0
  EndsIn e store' r = e ≡ (store', ok r)

  raised_never :
      {P : Type 0} (s store' : CommitmentStore) (e : CommitmentError) (r : CommitmentRecord)
      → EndsIn (s, err e) store' r
      → P
  raised_never s store' e r h = let wrong : err e ≡ ok r = ap (λ p. p.1) h in cc

  returned :
      (s store' : CommitmentStore) (m r : CommitmentRecord)
      → EndsIn (s, ok m) store' r
      → (s ≡ store') × (m ≡ r)
  returned s store' m r h = (ap (λ p. p.0) h, ok_injective m r _ refl (ap (λ p. p.1) h))

  module _ (at : Timestamp) (case_id attestation_id : Uuid) (c : AdministrativeCase)
      (store store' : CommitmentStore) (r : CommitmentRecord)
      (found : find_case case_id store.cases.cases ≡ some c) where
    closing :
        (m u : CommitmentRecord) (s : CommitmentStore)
        → u.state ≡ CommitmentState.fulfilled
        → u.version ≡ m.version + 1
        → s.cases ≡ store.cases
        → case_closed c.status ≡ false
        → (o : Outcome CommitmentError CommitmentStore)
        → close_case uuid5 sha256 str show at CaseStatus.completed c.authority_epoch
            "commitment.fulfilled"
            (("attestation_id", Value.text (str attestation_id)) ∷ [])
            c
            s
          ≡ o
        → EndsIn (returning uuid5 sha256 str show u s o) store' r
        → FulfilledNow at case_id store' m c r
    closing m u s done next same open_case (err e) k h = raised_never s store' e r h
    closing m u s done next same open_case (ok s') k h =
        let (is_store, is_r) = returned s' store' u r h in
        let completed =
          close_case-completed at case_id (("attestation_id", Value.text (str attestation_id)) ∷ [])
            c s s'
            (subst {A = CaseStore} (λ cs. find_case case_id cs.cases ≡ some c) (sym same) found)
            k in
        rw open_case (
          sym (ap (λ m. m.state) is_r) ∙ done,
          (
            sym (ap (λ m. m.version) is_r) ∙ next,
            sym (ap (λ t. find_case case_id t.cases.cases) is_store) ∙ completed,
          ),
        )

    updating :
        (m : CommitmentRecord) (s : CommitmentStore)
        → s.cases ≡ store.cases
        → (o : Outcome CommitmentError (CommitmentRecord × CommitmentStore))
        → update_commitment (fulfilled_at uuid5 sha256 str show at m) s ≡ o
        → EndsIn (after_update uuid5 sha256 str show at attestation_id c s o) store' r
        → FulfilledNow at case_id store' m c r
    updating m s same (err e) k h = raised_never s store' e r h
    updating m s same (ok (u, s')) k h =
        let (is_state, (next, kept)) =
          update_commitment-ok (fulfilled_at uuid5 sha256 str show at m) u s s' k in
        by_status is_state next (kept ∙ same) (case_closed c.status) refl h
      where
        by_status :
            u.state ≡ CommitmentState.fulfilled
            → u.version ≡ m.version + 1
            → s'.cases ≡ store.cases
            → (b : Bool) → case_closed c.status ≡ b
            → EndsIn
                (if b
                  then (s', ok u)
                  else returning uuid5 sha256 str show u s' (
                      close_case uuid5 sha256 str show at CaseStatus.completed c.authority_epoch
                        "commitment.fulfilled"
                        (("attestation_id", Value.text (str attestation_id)) ∷ [])
                        c
                        s'))
                store'
                r
            → FulfilledNow at case_id store' m c r
        by_status done next same true closed h =
            let (is_store, is_r) = returned s' store' u r h in
            rw closed (
              sym (ap (λ m. m.state) is_r) ∙ done,
              (
                sym (ap (λ m. m.version) is_r) ∙ next,
                sym (ap (λ t. find_case case_id t.cases.cases) is_store)
                    ∙ ap (λ cs. find_case case_id cs.cases) same
                    ∙ found,
              ),
            )
        by_status done next same false open_case h =
            closing m u s' done next same open_case _ refl h

    attesting :
        (m : CommitmentRecord) (a : CommitmentFulfillmentAttestation)
        → (o : Outcome CommitmentError CommitmentStore) → put_attestation a store ≡ o
        → EndsIn (after_attestation uuid5 sha256 str show at attestation_id m c store o) store' r
        → FulfilledNow at case_id store' m c r
    attesting m a (err e) k h = raised_never store store' e r h
    attesting m a (ok s) k h = updating m s (put_attestation-cases a store s k) _ refl h

  -- If a call of attest_fulfillment returns, then the case has a commitment in the same epoch, the
  -- caller is its committer and an active principal, and the basis is not empty. Either the
  -- commitment was fulfilled, and is returned with the tables as they were; or the commitment that
  -- is returned is fulfilled in the next version, and the case is completed in the next version,
  -- or is as it was if it was completed or cancelled before.
  pub attest_fulfillment_lem :
      (now at : Timestamp) (case_id : Uuid) (principal : Text) (basis : Dict Text Value)
      (store store' : CommitmentStore) (r : CommitmentRecord)
      → ◌≡◌ {A = Ended}
          (attest_fulfillment uuid5 sha256 str show now at case_id principal basis store)
          (store', ok r)
      → Attested at case_id principal basis store store' r
  unfolding attest_fulfillment
  attest_fulfillment_lem now at case_id principal basis store store' r h =
      guarded (attestable case_id principal basis store) refl h
    where
      guarded :
          (o : Outcome CommitmentError (CommitmentRecord × AdministrativeCase))
          → attestable case_id principal basis store ≡ o
          → EndsIn
              (attest_located uuid5 sha256 str show now at case_id principal basis store o)
              store'
              r
          → Attested at case_id principal basis store store' r
      guarded (err e) k h = raised_never store store' e r h
      guarded (ok (m, c)) k h =
          let seen = attestable-IsAttestable case_id principal basis store m c k in
          (m, c, seen, by_state seen.its_case (is_fulfilled m.state) refl h)
        where
          by_state :
              find_case case_id store.cases.cases ≡ some c
              → (b : Bool) → is_fulfilled m.state ≡ b
              → EndsIn
                  (if b
                    then (store, ok m)
                    else let a =
                        attestation_of uuid5 sha256 str show now case_id principal basis m in
                      after_attestation uuid5 sha256 str show at a.attestation_id m c store
                        (put_attestation a store))
                  store'
                  r
              → ((is_fulfilled m.state ≡ true) × ((store ≡ store') × (m ≡ r)))
                ⊎ ((is_fulfilled m.state ≡ false) × FulfilledNow at case_id store' m c r)
          by_state found true done h = inl (done, returned store store' m r h)
          by_state found false open_state h =
              let a = attestation_of uuid5 sha256 str show now case_id principal basis m in
              inr (
                open_state,
                attesting at case_id a.attestation_id c store store' r found m a _ refl h,
              )
