-- ===== src/Messaging/Leases.antt =====
-- Rows of messaging.py that a lease holds.
use administrative_orchestra.Base.{
  All, All-sort_by, All-take, Bool, Bool-cases, List, Timestamp, Uuid, [], arith, contains, false,
  if◌then◌else◌, inl, inr, keep, nat_eq, not, option_eq, refl, sort_by, string_eq, subst, sym, true,
  ℕ, ◌&&◌, ◌==◌, ◌||◌, ◌∷◌, ◌≡◌, ◌≤◌, ◌⊎◌,
}
use administrative_orchestra.Messaging.Claims.{
  ids_of, is_claimable, is_recoverable, older, selected, write_rows,
}
use administrative_orchestra.Messaging.Relay.{write_event}
use administrative_orchestra.Messaging.Rows.{OutboxEventRow, is_processing}
use administrative_orchestra.Messaging.Steps.{lasts}

module _ {Json : Type 0} where
  -- A row of the event is processing, with a lease up to `limit` at least.
  abbrev pub held : Timestamp → Uuid → OutboxEventRow Json → Bool
  held limit id r = not (r.event_id == id) || (is_processing r.status && lasts limit r.lease_until)

  abbrev pub Held : Timestamp → Uuid → List (OutboxEventRow Json) → Type 0
  Held limit id = All (λ r. held limit id r ≡ true)

  abbrev Avoids : Uuid → List (OutboxEventRow Json) → Type 0
  Avoids id = All (λ r. (r.event_id == id) ≡ false)

  keep-Avoids :
      (wanted : OutboxEventRow Json → Bool) (id : Uuid) (rows : List (OutboxEventRow Json))
      → All (λ r. (not (r.event_id == id) || not (wanted r)) ≡ true) rows
      → Avoids id (keep wanted rows)
  keep-Avoids wanted id [] h = tt
  keep-Avoids wanted id (r ∷ rows) h = elim (Bool-cases (wanted r)) [
    | inl kept ↦ rw kept (ground (arith, h.0), keep-Avoids wanted id rows h.1)
    | inr dropped ↦ rw dropped (keep-Avoids wanted id rows h.1)
  ]

  ids_of-Avoids :
      (id : Uuid) (rows : List (OutboxEventRow Json))
      → Avoids id rows
      → contains (ids_of rows) id ≡ false
  ids_of-Avoids id [] h = refl
  ids_of-Avoids id (r ∷ rows) h = ground (arith, ids_of-Avoids id rows h.1)

  pub not_selected :
      (batch : ℕ) (wanted : OutboxEventRow Json → Bool) (id : Uuid)
      (rows : List (OutboxEventRow Json))
      → All (λ r. (not (r.event_id == id) || not (wanted r)) ≡ true) rows
      → contains (ids_of (selected batch wanted rows)) id ≡ false
  not_selected batch wanted id rows h =
      let P = λ (r : OutboxEventRow Json). (r.event_id == id) ≡ false in
      ids_of-Avoids id (selected batch wanted rows) (
        All-take P batch (sort_by older (keep wanted rows))
          (All-sort_by older P (keep wanted rows) (keep-Avoids wanted id rows h)))

  pub write_rows-Held :
      (limit : Timestamp) (id : Uuid) (ids : List Uuid)
      (f : OutboxEventRow Json → OutboxEventRow Json) (rows : List (OutboxEventRow Json))
      → ((r : OutboxEventRow Json) → (f r).event_id ≡ r.event_id)
      → contains ids id ≡ false
      → Held limit id rows
      → Held limit id (write_rows ids f rows)
  write_rows-Held limit id ids f [] keeps c h = tt
  write_rows-Held limit id ids f (r ∷ rows) keeps c h =
      (one (Bool-cases (r.event_id == id)), write_rows-Held limit id ids f rows keeps c h.1)
    where
      one :
          ((r.event_id == id) ≡ true) ⊎ ((r.event_id == id) ≡ false)
          → held limit id (if contains ids r.event_id then f r else r) ≡ true
      one (inl same) =
          let e : r.event_id ≡ id = ground arith in
          let not_in : contains ids r.event_id ≡ false =
            subst (λ i. contains ids i ≡ false) (sym e) c in
          rw not_in h.0
      one (inr other) = ground (arith, keeps r)

  pub write_event-Held :
      (limit : Timestamp) (id j : Uuid) (f : OutboxEventRow Json → OutboxEventRow Json)
      (rows : List (OutboxEventRow Json))
      → ((r : OutboxEventRow Json) → (f r).event_id ≡ r.event_id)
      → (j == id) ≡ false
      → Held limit id rows
      → Held limit id (write_event j f rows)
  write_event-Held limit id j f [] keeps c h = tt
  write_event-Held limit id j f (r ∷ rows) keeps c h = elim (Bool-cases (r.event_id == j)) [
    | inl same ↦ rw same (ground (arith, keeps r), h.1)
    | inr other ↦ rw other (h.0, write_event-Held limit id j f rows keeps c h.1)
  ]

  -- A row that a lease holds is neither claimable nor recoverable.
  pub Held-unclaimable :
      (limit now : Timestamp) (locked : Uuid → Bool) (id : Uuid) (rows : List (OutboxEventRow Json))
      → Held limit id rows
      → All (λ r. (not (r.event_id == id) || not (is_claimable now locked r)) ≡ true) rows
  Held-unclaimable limit now locked id [] h = tt
  Held-unclaimable limit now locked id (r ∷ rows) h =
      (ground (arith, h.0), Held-unclaimable limit now locked id rows h.1)

  pub Held-unrecoverable :
      (limit now : Timestamp) (locked : Uuid → Bool) (id : Uuid) (rows : List (OutboxEventRow Json))
      → now ≤ limit
      → Held limit id rows
      → All (λ r. (not (r.event_id == id) || not (is_recoverable now locked r)) ≡ true) rows
  Held-unrecoverable limit now locked id [] t h = tt
  Held-unrecoverable limit now locked id (r ∷ rows) t h =
      (ground (arith, h.0), Held-unrecoverable limit now locked id rows t h.1)
