-- ===== src/Messaging/Retry.antt =====
-- Repeated `mark_retry` of messaging.py on one event.
use administrative_orchestra.Base.{
  Bool-cases, List, Text, Timestamp, Uuid, [], arith, inl, inr, leb, length, nat_eq, none, not,
  option_eq, some, string_eq, subst, suc, zero, ℕ, ◌+◌, ◌-◌, ◌<◌, ◌==◌, ◌^◌, ◌∷◌, ◌≡◌, ◌≤◌,
}
use administrative_orchestra.Messaging.Relay.{find_event, mark_retry, retried, write_event}
use administrative_orchestra.Messaging.Rows.{
  Outbox, OutboxEventRow, delay_seconds, is_failed, is_pending, seconds,
}

pow_pos : (k : ℕ) → 1 ≤ 2 ^ k
pow_pos zero = omega arith
pow_pos (suc k) = omega (arith, pow_pos k)

delay_bounds : (attempts : ℕ) → (1 ≤ delay_seconds attempts) × (delay_seconds attempts ≤ 60)
unfolding delay_seconds
delay_bounds attempts = ground (arith, pow_pos (attempts - 1))

module _ {Json : Type 0} where
  pub find-write_event :
      (id : Uuid) (f : OutboxEventRow Json → OutboxEventRow Json)
      (keeps : (r : OutboxEventRow Json) → (f r).event_id ≡ r.event_id)
      (rows : List (OutboxEventRow Json)) {r : OutboxEventRow Json}
      → find_event id rows ≡ some r
      → find_event id (write_event id f rows) ≡ some (f r)
  find-write_event id f keeps [] h = cc
  find-write_event id f keeps (s ∷ rows) h = elim (Bool-cases (s.event_id == id)) [
    | inl same ↦ ground (arith, keeps s)
    | inr other ↦ rw (other, other) (find-write_event id f keeps rows (rw other at h))
  ]

  retried_id :
      (now : Timestamp) (error : Text) (most : ℕ) (r : OutboxEventRow Json)
      → (retried now error most r).event_id ≡ r.event_id
  unfolding retried
  retried_id now error most r = ground arith

  -- The relay fails to deliver one event again and again, at the given times with the given errors.
  unfoldable pub failures : Uuid → ℕ → List (Timestamp × Text) → Outbox Json → Outbox Json
  failures id most [] box = box
  failures id most ((now, error) ∷ rest) box =
      failures id most rest (mark_retry now id error most box).1

  -- What an event is after at least one failed attempt, `n` in all.
  abbrev pub IsTried : ℕ → ℕ → OutboxEventRow Json → Type 0
  IsTried most n r =
      (r.attempts ≡ n)
      × (is_failed r.status ≡ leb most n)
      × (is_pending r.status ≡ not (leb most n))
      × (r.lease_until ≡ none)

  retried-IsTried :
      (now : Timestamp) (error : Text) (most : ℕ) (r : OutboxEventRow Json)
      → IsTried most (r.attempts + 1) (retried now error most r)
  unfolding retried
  retried-IsTried now error most r = ground arith

  -- After one failed attempt and those of `rest`, the event has as many attempts more, holds no lease,
  -- and has failed for good exactly if its attempts have reached the maximum; else it is pending
  -- again.
  pub failures_end :
      (id : Uuid) (most : ℕ) (now : Timestamp) (error : Text) (rest : List (Timestamp × Text))
      (box : Outbox Json) {r : OutboxEventRow Json}
      → find_event id box.rows ≡ some r
      → (s : OutboxEventRow Json) × (find_event id (failures id most ((now, error) ∷ rest) box).rows
          ≡ some s)
        × IsTried most (r.attempts + 1 + length rest) s
  unfolding failures mark_retry
  failures_end id most now error [] box {r} h = (
    retried now error most r,
    find-write_event id (retried now error most) (retried_id now error most) box.rows h,
    subst (λ n. IsTried most n (retried now error most r)) (omega arith)
        (retried-IsTried now error most r),
  )
  failures_end id most now error ((later, e) ∷ rest) box {r} h =
      let tried = (retried-IsTried now error most r).0 in
      let (s, found, end) =
        failures_end id most later e rest (mark_retry now id error most box).1
          (find-write_event id (retried now error most) (retried_id now error most) box.rows h) in
      (s, found, subst (λ n. IsTried most n s) (omega (arith, tried)) end)

  -- An event whose attempts are not used up waits at least one second and at most sixty.
  pub retried_bounds :
      (now : Timestamp) (error : Text) (most : ℕ) (r : OutboxEventRow Json)
      → r.attempts + 1 < most
      → (at : Timestamp) × ((retried now error most r).next_attempt_at ≡ some at)
        × (now + seconds 1 ≤ at)
        × (at ≤ now + seconds 60)
  unfolding retried
  retried_bounds now error most r h = (
    now + seconds (delay_seconds (r.attempts + 1)),
    ground arith,
    omega (arith, delay_bounds (r.attempts + 1)),
    omega (arith, delay_bounds (r.attempts + 1)),
  )
