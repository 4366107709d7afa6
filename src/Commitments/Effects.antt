-- ===== src/Commitments/Effects.antt =====
-- What the reads and writes of commitment_repository.py and persistence.py leave, for a commitment.
use administrative_orchestra.Authority.{get_principal}
use administrative_orchestra.Base.{
  >>-eq-ok, >>=-eq-ok, Bool-cases, Dict, List, Option, Outcome, Text, Timestamp, Uuid, [], ap,
  arith, err, false, find, if-eq-ok, inl, inr, is_empty, list_eq, ltb, map_err, nat_eq, none, not,
  ok, ok_injective, option_eq, or_raise, or_raise-eq-ok, refl, some, str_beq_iff, string_eq, sym,
  true, ℕ, ◌&&◌, ◌+◌, ◌==◌, ◌>>=◌, ◌∙◌, ◌∷◌, ◌≡◌,
}
use administrative_orchestra.Commitments.Lifecycle.{attestable, located}
use administrative_orchestra.Commitments.Models.{CommitmentFulfillmentAttestation, CommitmentRecord}
use administrative_orchestra.Commitments.Repository.{
  CommitmentError, CommitmentStore, attestation_beq, attestation_differs, attestation_id_reused,
  attestation_without_basis, attester_inactive, commitment_case_missing, commitment_epoch_changed,
  commitment_missing, commitment_version_changed, get_commitment, not_the_committer,
  put_attestation, restored_or, update_commitment,
}
use administrative_orchestra.Domain.{
  AdministrativeCase, CaseStatus, Value, counters_not_positive, is_some, missing_reopen_reason,
  status_eq, stray_reopen_reason, validate_case,
}
use administrative_orchestra.Persistence.{
  CaseStore, case_not_found, copy_case_into_row, find_case, get_case, update_case, version_conflict,
}

pub validate_same : (c restored : AdministrativeCase) → validate_case c ≡ ok restored → c ≡ restored
unfolding validate_case
validate_same c restored h =
    let (v, h₁) = >>-eq-ok (ltb c.version 1) counters_not_positive _ h in
    let (e, h₂) = >>-eq-ok (ltb c.authority_epoch 1) counters_not_positive _ h₁ in
    let (m, h₃) =
      >>-eq-ok ((c.status == CaseStatus.reopen_required) && not (is_some c.reopen_reason))
        missing_reopen_reason _ h₂ in
    let (s, h₄) =
      >>-eq-ok (not (c.status == CaseStatus.reopen_required) && is_some c.reopen_reason)
        stray_reopen_reason _ h₃ in
    ok_injective c restored _ refl h₄

pub get_case_found :
    (case_id : Uuid) (store : CaseStore) (c : AdministrativeCase)
    → get_case case_id store ≡ ok (some c)
    → find_case case_id store.cases ≡ some c
unfolding get_case
get_case_found case_id store c h = read (find_case case_id store.cases) h
  where
    read :
        (o : Option AdministrativeCase)
        → (elim o [ none ↦ ok none | some d ↦ validate_case d >>= λ restored. ok (some restored) ])
          ≡ ok (some c)
        → o ≡ some c
    read none h = cc
    read (some d) h =
        let (restored, valid, e) = >>=-eq-ok (validate_case d) _ h in
        ap some (validate_same d restored valid) ∙ ok_injective (some restored) (some c) _ refl e

pub found_id :
    (case_id : Uuid) (rows : List AdministrativeCase) (c : AdministrativeCase)
    → find_case case_id rows ≡ some c
    → c.case_id ≡ case_id
found_id case_id [] c h = cc
found_id case_id (r ∷ rows) c h = elim (Bool-cases (r.case_id == case_id)) [
  | inl it ↦ ground (arith, it, h)
  | inr other ↦ found_id case_id rows c (ground (arith, other, h))
]

pub put_attestation-cases :
    (a : CommitmentFulfillmentAttestation) (store store' : CommitmentStore)
    → put_attestation a store ≡ ok store'
    → store'.cases ≡ store.cases
unfolding put_attestation
put_attestation-cases a store store' h =
    first (find (λ r. r.attestation_id == a.attestation_id) store.attestations)
      (restored_or a attestation_differs store
        (ok (record store { attestations = a ∷ store.attestations }))
        (find (λ r. (r.case_id == a.case_id) && (r.commitment_version == a.commitment_version))
          store.attestations))
      attestation_id_reused h
      (λ k.
        first
          (find (λ r. (r.case_id == a.case_id) && (r.commitment_version == a.commitment_version))
            store.attestations)
          (ok (record store { attestations = a ∷ store.attestations })) attestation_differs k
          (λ e. sym (ap (λ s. s.cases) (ok_injective _ store' _ refl e))))
  where
    first :
        (o : Option CommitmentFulfillmentAttestation)
        (otherwise : Outcome CommitmentError CommitmentStore) (conflict : CommitmentError)
        → restored_or a conflict store otherwise o ≡ ok store'
        → (otherwise ≡ ok store' → store'.cases ≡ store.cases)
        → store'.cases ≡ store.cases
    first none otherwise conflict h next = next h
    first (some restored) otherwise conflict h next =
        sym (ap (λ s. s.cases) (if-eq-ok (attestation_beq restored a) store store' conflict h).1)

pub update_commitment-ok :
    (m updated : CommitmentRecord) (store store' : CommitmentStore)
    → update_commitment m store ≡ ok (updated, store')
    → (updated.state ≡ m.state) × ((updated.version ≡ m.version + 1) × (store'.cases ≡ store.cases))
unfolding update_commitment
update_commitment-ok m updated store store' h =
    let (row, found, h₁) =
      >>=-eq-ok
        (or_raise (find (λ r. r.commitment_id == m.commitment_id) store.commitments)
          commitment_missing)
        _ h in
    let (version, h₂) = >>-eq-ok (not (row.version == m.version)) commitment_version_changed _ h₁ in
    let e = ok_injective _ (updated, store') _ refl h₂ in
    (sym (ap (λ p. p.0.state) e), (sym (ap (λ p. p.0.version) e), sym (ap (λ p. p.1.cases) e)))

pub update_case-cases :
    (now : Timestamp) (c : AdministrativeCase) (version : ℕ) (event_type : Text)
    (payload : Dict Text Value) (store store' : CaseStore)
    → update_case now c version event_type payload store ≡ ok store'
    → store'.cases ≡ copy_case_into_row c.case_id c store.cases
unfolding update_case
update_case-cases now c version event_type payload store store' h =
    let (row, found, h₁) =
      >>=-eq-ok (or_raise (find_case c.case_id store.cases) case_not_found) _ h in
    let (same, h₂) = >>-eq-ok (not (row.version == version)) version_conflict _ h₁ in
    sym (ap (λ s. s.cases) (ok_injective _ store' _ refl h₂))

pub map_err-eq-ok :
    {D E A : Type 0} (f : D → E) (o : Outcome D A) {a : A} → map_err f o ≡ ok a → o ≡ ok a
map_err-eq-ok f (ok b) h = ap ok (ok_injective b _ _ refl h)
map_err-eq-ok f (err e) h = cc

-- What the guards of attest_fulfillment have seen.
pub record IsAttestable (case_id : Uuid) (principal : Text) (basis : Dict Text Value)
    (store : CommitmentStore) (m : CommitmentRecord) (c : AdministrativeCase) : Type 0 where
  pub its_case : find_case case_id store.cases.cases ≡ some c
  pub its_commitment : get_commitment case_id store.commitments ≡ some m
  pub same_epoch : m.authority_epoch ≡ c.authority_epoch
  pub by_committer : principal ≡ m.committer_principal_id
  pub is_active : is_some (get_principal principal store.directory) ≡ true
  pub has_basis : is_empty basis ≡ false

pub attestable-IsAttestable :
    (case_id : Uuid) (principal : Text) (basis : Dict Text Value) (store : CommitmentStore)
    (m : CommitmentRecord) (c : AdministrativeCase)
    → attestable case_id principal basis store ≡ ok (m, c)
    → IsAttestable case_id principal basis store m c
unfolding attestable
attestable-IsAttestable case_id principal basis store m c h =
    let (pair, at_case, h₁) = >>=-eq-ok (located case_id store) _ h in
    let (committer, h₂) =
      >>-eq-ok (not (principal == pair.0.committer_principal_id)) not_the_committer _ h₁ in
    let (p, is_active, h₃) =
      >>=-eq-ok (or_raise (get_principal principal store.directory) attester_inactive) _ h₂ in
    let (given, h₄) = >>-eq-ok (is_empty basis) attestation_without_basis _ h₃ in
    let (o, read, h₅) =
      >>=-eq-ok (map_err CommitmentError.case_invalid (get_case case_id store.cases)) _ at_case in
    let (n, known, h₆) =
      >>=-eq-ok (or_raise (get_commitment case_id store.commitments) commitment_case_missing) _
        h₅ in
    let (d, located_case, h₇) = >>=-eq-ok (or_raise o commitment_case_missing) _ h₆ in
    let (epoch, h₈) =
      >>-eq-ok (not (n.authority_epoch == d.authority_epoch)) commitment_epoch_changed _ h₇ in
    let is_pair : pair ≡ (m, c) = ok_injective pair (m, c) _ refl h₄ in
    let is_n : n ≡ m = ap (λ q. q.0) (ok_injective (n, d) pair _ refl h₈) ∙ ap (λ q. q.0) is_pair in
    let is_c : d ≡ c = ap (λ q. q.1) (ok_injective (n, d) pair _ refl h₈) ∙ ap (λ q. q.1) is_pair in
    let is_o : o ≡ some d = or_raise-eq-ok o commitment_case_missing d located_case in
    let active =
      or_raise-eq-ok (get_principal principal store.directory) attester_inactive p is_active in
    record {
      its_case =
          get_case_found case_id store.cases c
            (map_err-eq-ok _ _ read ∙ ap ok (is_o ∙ ap some is_c));
      its_commitment =
          or_raise-eq-ok (get_commitment case_id store.commitments) commitment_case_missing n known
          ∙ ap some is_n;
      same_epoch =
          sym (ap (λ x. x.authority_epoch) is_n)
          ∙ same_number n.authority_epoch d.authority_epoch epoch
          ∙ ap (λ x. x.authority_epoch) is_c;
      by_committer =
          same_text principal pair.0.committer_principal_id committer
          ∙ ap (λ q. q.0.committer_principal_id) is_pair;
      is_active = ap is_some active;
      has_basis = given;
    }
  where
    same_number : (a b : ℕ) → not (a == b) ≡ false → a ≡ b
    same_number a b h = ground (arith, h)

    same_text : (a b : Text) → not (a == b) ≡ false → a ≡ b
    same_text a b h = ground (arith, h, str_beq_iff a b)
