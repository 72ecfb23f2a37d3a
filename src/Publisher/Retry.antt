-- ===== src/Publisher/Retry.antt =====
-- What a failed publication means for its event (publisher.go, `publishOne` and `markFailed`).
use wager_ledger.Base.{
  ℕ, ℤ, pos, negsuc, ◌+ℤ◌, ◌≤ℤ◌, +ℤ_parts, ltb_ℤ, min_int64, max_int64, ◌+◌, ◌*◌, Bool, true, false,
  not, ◌&&◌, Bytes, Option, none, some, List, [], ◌∷◌, All, ◌≡◌, ◌⊎◌, refl, ◌∙◌, arith, Bool-cases,
  inl, inr,
}
use wager_ledger.Wallet.{Time}
use wager_ledger.Usecase.Resume.{second}
use wager_ledger.Postgres.{
  OutboxRow, OutboxRecord, exists, update_where, select_all, is_free, is_unpublished, claimable,
  event_has_id, timestamptz, failed_attempt, update_event, mark_event_failed,
}
use wager_ledger.Postgres.Queries.Ordered.{All-map}
use wager_ledger.Publisher.{
  Answer, accepted, lost, refused, Outbound, Relay, backoff, envelope_of, request_of, await, store,
  mark_failed, after_send, after_marshal, publish_one,
}
use wager_ledger.Publisher.Backoff.{exact_backoff, backoff_exact, exact_backoff_bounds}

abbrev pub is_accepted : Answer → Bool
is_accepted accepted = true
is_accepted lost = false
is_accepted refused = false

-- The event goes out: it has a JSON text, and the queue says that it has the message.
abbrev pub goes_out : Relay → OutboxRecord → ℕ → Option Bytes → Bool
goes_out relay rec n none = false
goes_out relay rec n (some body) = is_accepted (relay.answer n (request_of rec body))

-- free, and due at a time from which on it can be claimed
record DueAt (next : Time) (r : OutboxRow) : Type 0 where
  free : r.locked_by ≡ none
  due : r.next_attempt_at ≡ next

and_self : (a : Bool) → (a && true) ≡ a
and_self true = refl
and_self false = refl

and_true : (a b : Bool) → (a && (b && true)) ≡ (a && b)
and_true a b = ground arith

-- what `Claim` finds at the time `t`
DueAt-claimable :
    (next : Time) (ttl : ℤ) (t : Time) (r : OutboxRow)
    → DueAt next r
    → claimable ttl t r ≡ (is_unpublished r && not (ltb_ℤ t next))
unfolding claimable is_free
DueAt-claimable next ttl t r d =
    rw (d.free, d.due) (ground (arith, and_true (is_unpublished r) (not (ltb_ℤ t next))))

timestamptz_below : (t : Time) → timestamptz t ≤ℤ t
unfolding timestamptz
timestamptz_below (pos n) = omega arith
timestamptz_below (negsuc n) = omega arith

failed-DueAt :
    (id : Bytes) (next : Time) (rows : List OutboxRow)
    → All
        (DueAt next)
        (select_all (event_has_id id) (update_where (event_has_id id) (failed_attempt next) rows))
unfolding select_all update_where
failed-DueAt id next [] = tt
failed-DueAt id next (r ∷ rows) = elim (Bool-cases (event_has_id id r)) [
  | inl e ↦ rw (e, e) (record { free = refl; due = refl }, failed-DueAt id next rows)
  | inr e ↦ rw (e, e) (failed-DueAt id next rows)
]

-- the number of the call that failed, of a publication that began at `tick`
abbrev pub FailedAt : ℕ → ℕ → Type 0
FailedAt tick n = (n ≡ tick) ⊎ (n ≡ tick + 1)

module _ (relay : Relay) (rec : OutboxRecord) where
  -- the rows of the event
  abbrev pub rows_of : Outbound → List OutboxRow
  rows_of w = select_all (event_has_id rec.id) w.db.outbox

  -- when the event can be claimed again, if the call with the number `n` has failed
  abbrev pub next_at : ℕ → Time
  next_at n = timestamptz (relay.now n +ℤ backoff relay.out_of_range rec.attempts)

  absent-rows :
      (Q : OutboxRow → Type 0) (rows : List OutboxRow)
      → exists (event_has_id rec.id) rows ≡ false
      → All Q (select_all (event_has_id rec.id) rows)
  unfolding exists select_all
  absent-rows Q [] h = tt
  absent-rows Q (r ∷ rows) h =
      let parts : (event_has_id rec.id r ≡ false) × (exists (event_has_id rec.id) rows ≡ false) =
        (ground (arith, h), ground (arith, h)) in
      rw parts.0 (absent-rows Q rows parts.1)

  store-DueAt :
      (next : Time) (w : Outbound)
      → All
          (DueAt (timestamptz next))
          (rows_of (store relay w (mark_event_failed rec.id next w.db)))
  unfolding mark_event_failed update_event
  store-DueAt next w = elim (Bool-cases (exists (event_has_id rec.id) w.db.outbox)) [
    | inl e ↦ rw e (failed-DueAt rec.id (timestamptz next) w.db.outbox)
    | inr e ↦ rw e (absent-rows (DueAt (timestamptz next)) w.db.outbox e)
  ]

  mark_failed-DueAt :
      (w : Outbound) → All (DueAt (next_at w.tick)) (rows_of (mark_failed relay rec w))
  unfolding mark_failed
  mark_failed-DueAt w =
      store-DueAt (relay.now w.tick +ℤ backoff relay.out_of_range rec.attempts) (await relay w)

  after_send-DueAt :
      (body : Bytes) (w : Outbound) (a : Answer)
      → is_accepted a ≡ false
      → All
          (DueAt (next_at (w.tick + 1)))
          (rows_of (after_send relay rec (request_of rec body) w a))
  unfolding after_send
  after_send-DueAt body w accepted h = cc
  after_send-DueAt body w lost h = mark_failed-DueAt _
  after_send-DueAt body w refused h = mark_failed-DueAt _

  after_marshal-DueAt :
      (o : Option Bytes) (w : Outbound)
      → goes_out relay rec w.tick o ≡ false
      → (n : ℕ) × FailedAt w.tick n
        × All (DueAt (next_at n)) (rows_of (after_marshal relay rec w o))
  unfolding after_marshal
  after_marshal-DueAt none w h = (w.tick, inl refl, mark_failed-DueAt w)
  after_marshal-DueAt (some body) w h = (w.tick + 1, inr refl, after_send-DueAt body w _ h)

  module _ (converted : (relay.out_of_range ≡ min_int64) ⊎ (relay.out_of_range ≡ max_int64))
      (w : Outbound)
      (failed : goes_out relay rec w.tick (relay.marshal (envelope_of rec)) ≡ false) where
    -- If an event does not go out, whether its JSON, the queue or the queue's answer fails, then `Claim` finds it
    -- from the end of the delay on, as long as it is unpublished, and not before: the delay is that
    -- of its attempts, from a time at or after the start of the call, and its end is stored to the microsecond. That holds provided that a
    -- float64 out of the range is converted to the least or to the largest int64.
    pub claimable_again :
        (ttl : ℤ) (t : Time)
        → (n : ℕ) × FailedAt w.tick n
          × All
              (λ r. claimable ttl t r ≡ (
                is_unpublished r
                && not (ltb_ℤ t (timestamptz (relay.now n +ℤ pos (exact_backoff rec.attempts))))))
              (rows_of (publish_one relay rec w))
    unfolding publish_one
    claimable_again ttl t =
        let (n, at, due) = after_marshal-DueAt (relay.marshal (envelope_of rec)) w failed in
        let delay = backoff_exact relay.out_of_range rec.attempts converted in
        (n, at, All-map _ _ (λ r d. rw (← delay) (DueAt-claimable (next_at n) ttl t r d)) _ due)

    due_by :
        (now t : Time)
        → now +ℤ pos (300 * second) ≤ℤ t
        → ltb_ℤ t (timestamptz (now +ℤ pos (exact_backoff rec.attempts))) ≡ false
    due_by now t h =
        let bound = (exact_backoff_bounds rec.attempts).1 in
        ground (
          arith,
          h,
          bound,
          timestamptz_below (now +ℤ pos (exact_backoff rec.attempts)),
          +ℤ_parts now (pos (300 * second)),
          +ℤ_parts now (pos (exact_backoff rec.attempts)),
        )

    not_before :
        (n : ℕ) (t : Time) (unpublished : Bool)
        → FailedAt w.tick n
        → relay.now w.tick +ℤ pos (300 * second) ≤ℤ t
        → relay.now (w.tick + 1) +ℤ pos (300 * second) ≤ℤ t
        → (unpublished
            && not (ltb_ℤ t (timestamptz (relay.now n +ℤ pos (exact_backoff rec.attempts)))))
          ≡ unpublished
    not_before n t unpublished (inl e) early late =
        rw (e, due_by (relay.now w.tick) t early) (ground (arith, and_self unpublished))
    not_before n t unpublished (inr e) early late =
        rw (e, due_by (relay.now (w.tick + 1)) t late) (ground (arith, and_self unpublished))

    -- An event that does not go out, whatever fails, is claimable again 5 minutes later if it is unpublished then.
    pub retried_later :
        (ttl : ℤ) (t : Time)
        → relay.now w.tick +ℤ pos (300 * second) ≤ℤ t
        → relay.now (w.tick + 1) +ℤ pos (300 * second) ≤ℤ t
        → All (λ r. claimable ttl t r ≡ is_unpublished r) (rows_of (publish_one relay rec w))
    retried_later ttl t early late =
        let (n, at, found) = claimable_again ttl t in
        All-map _ _ (λ r e. e ∙ not_before n t (is_unpublished r) at early late) _ found
