-- ===== src/Publisher/Sent.antt =====
-- No event is marked as published that has not come to the queue (publisher.go).
use wager_ledger.Base.{
  ℕ, zero, suc, Bool, true, false, ◌||◌, Bytes, str_eq, str_eq_refl, str_eq_sound, Option, none,
  some, List, [], ◌∷◌, All, ◌≡◌, refl, sym, subst, arith, Bool-cases, inl, inr,
}
use wager_ledger.Errors.{Result, ok, err}
use wager_ledger.Postgres.{
  OutboxRow, OutboxRecord, Db, exists, update_where, is_unpublished, claim, lease, event_has_id,
  published, failed_attempt, update_event, mark_published, mark_event_failed,
}
use wager_ledger.Publisher.{
  SendRequest, Answer, accepted, lost, refused, Outbound, Relay, request_of, await, store,
  mark_failed, confirm, after_send, after_marshal, publish_one, publish_all, publish_pending,
  run_rounds,
}

-- a message with the event's id has come to the queue
abbrev pub was_sent : List SendRequest → Bytes → Bool
was_sent sent id = exists (λ (s : SendRequest). str_eq s.message_deduplication_id id) sent

-- Every published event has come to the queue.
abbrev pub IsAnnounced : List SendRequest → List OutboxRow → Type 0
IsAnnounced sent = All (λ r. (is_unpublished r || was_sent sent r.id) ≡ true)

-- Other processes mark as published what has come to the queue alone, and take nothing out of the record of
-- what has come.
pub record KeepsAnnounced (relay : Relay) : Type 0 where
  pub announced :
      (n : ℕ) (w : Outbound)
      → IsAnnounced w.sent w.db.outbox
      → IsAnnounced (relay.others n w).sent (relay.others n w).db.outbox
  pub sent :
      (n : ℕ) (w : Outbound) (id : Bytes)
      → was_sent w.sent id ≡ true
      → was_sent (relay.others n w).sent id ≡ true

update-IsAnnounced :
    (sent : List SendRequest) (p : OutboxRow → Bool) (f : OutboxRow → OutboxRow)
    (rows : List OutboxRow)
    → ((r : OutboxRow)
        → p r ≡ true
        → (is_unpublished r || was_sent sent r.id) ≡ true
        → (is_unpublished (f r) || was_sent sent (f r).id) ≡ true)
    → IsAnnounced sent rows
    → IsAnnounced sent (update_where p f rows)
unfolding update_where
update-IsAnnounced sent p f [] keeps h = tt
update-IsAnnounced sent p f (r ∷ rows) keeps (q, h) = elim (Bool-cases (p r)) [
  | inl e ↦ rw e (keeps r e q, update-IsAnnounced sent p f rows keeps h)
  | inr e ↦ rw e (q, update-IsAnnounced sent p f rows keeps h)
]

or_true : (b : Bool) → (b || true) ≡ true
or_true true = refl
or_true false = refl

or-more : (a b c : Bool) → (a || b) ≡ true → (a || (c || b)) ≡ true
or-more a b c h = ground (arith, h)

more-sent :
    (s : SendRequest) (sent : List SendRequest) (rows : List OutboxRow)
    → IsAnnounced sent rows
    → IsAnnounced (s ∷ sent) rows
unfolding exists
more-sent s sent [] h = tt
more-sent s sent (r ∷ rows) (q, h) = (
  or-more (is_unpublished r) (was_sent sent r.id) (str_eq s.message_deduplication_id r.id) q,
  more-sent s sent rows h,
)

module _ (relay : Relay) (keeps : KeepsAnnounced relay) where
  abbrev Announced : Outbound → Type 0
  Announced w = IsAnnounced w.sent w.db.outbox

  await-Announced : (w : Outbound) → Announced w → Announced (await relay w)
  unfolding await
  await-Announced w h = keeps.announced w.tick w h

  store-Announced :
      (f : OutboxRow → OutboxRow) (id : Bytes) (w : Outbound) (x : Result Db)
      → update_event f id w.db ≡ x
      → ((r : OutboxRow)
          → event_has_id id r ≡ true
          → (is_unpublished r || was_sent w.sent r.id) ≡ true
          → (is_unpublished (f r) || was_sent w.sent (f r).id) ≡ true)
      → Announced w
      → Announced (store relay w x)
  unfolding update_event
  store-Announced f id w (ok db) e k h =
      let same : db ≡ record w.db { outbox = update_where (event_has_id id) f w.db.outbox } =
        ground (arith, e) in
      rw same (update-IsAnnounced w.sent (event_has_id id) f w.db.outbox k h)
  store-Announced f id w (err x) e k h = h

  mark_failed-Announced :
      (rec : OutboxRecord) (w : Outbound) → Announced w → Announced (mark_failed relay rec w)
  unfolding mark_failed mark_event_failed is_unpublished
  mark_failed-Announced rec w h =
      store-Announced (failed_attempt _) rec.id (await relay w) _ refl (λ r e q. q)
        (await-Announced w h)

  confirm-Announced :
      (rec : OutboxRecord) (w : Outbound)
      → was_sent w.sent rec.id ≡ true
      → Announced w
      → Announced (confirm relay rec w)
  unfolding confirm mark_published is_unpublished await
  confirm-Announced rec w sent h =
      store-Announced (published (relay.db_now w.tick)) rec.id (await relay w) _ refl
        (λ r e q.
          subst (λ i. was_sent (await relay w).sent i ≡ true) (sym (str_eq_sound r.id rec.id e))
            (keeps.sent w.tick w rec.id sent))
        (await-Announced w h)

  after_send-Announced :
      (rec : OutboxRecord) (body : Bytes) (w : Outbound) (a : Answer)
      → Announced w
      → Announced (after_send relay rec (request_of rec body) w a)
  unfolding after_send request_of exists
  after_send-Announced rec body w accepted h =
      confirm-Announced rec _ (rw (str_eq_refl rec.id) refl)
        (more-sent (request_of rec body) w.sent w.db.outbox h)
  after_send-Announced rec body w lost h =
      mark_failed-Announced rec _ (more-sent (request_of rec body) w.sent w.db.outbox h)
  after_send-Announced rec body w refused h = mark_failed-Announced rec _ h

  after_marshal-Announced :
      (rec : OutboxRecord) (w : Outbound) (o : Option Bytes)
      → Announced w
      → Announced (after_marshal relay rec w o)
  unfolding after_marshal
  after_marshal-Announced rec w none h = mark_failed-Announced rec w h
  after_marshal-Announced rec w (some body) h = after_send-Announced rec body w _ h

  publish_one-Announced :
      (rec : OutboxRecord) (w : Outbound) → Announced w → Announced (publish_one relay rec w)
  unfolding publish_one
  publish_one-Announced rec w h = after_marshal-Announced rec w _ h

  publish_all-Announced :
      (records : List OutboxRecord) (w : Outbound)
      → Announced w
      → Announced (publish_all relay records w)
  unfolding publish_all
  publish_all-Announced [] w h = h
  publish_all-Announced (rec ∷ records) w h = elim (Bool-cases (relay.done w.tick)) [
    | inl e ↦ rw e h
    | inr e ↦
        rw e
          (publish_all-Announced records (publish_one relay rec w) (publish_one-Announced rec w h))
  ]

  publish_pending-Announced : (w : Outbound) → Announced w → Announced (publish_pending relay w)
  unfolding publish_pending claim is_unpublished
  publish_pending-Announced w h = publish_all-Announced _ _ (
      update-IsAnnounced (await relay w).sent _ (lease relay.worker_id (relay.db_now w.tick))
        (await relay w).db.outbox (λ r e q. q) (await-Announced w h))

  -- If every event that is marked as published has come to the queue, that is so after any number of
  -- rounds of the publisher, whatever the queue answers and whatever fails, provided that the other
  -- processes keep it so and do not forget what has come to the queue.
  pub run_rounds-IsAnnounced :
      (n : ℕ) (w : Outbound)
      → IsAnnounced w.sent w.db.outbox
      → IsAnnounced (run_rounds relay n w).sent (run_rounds relay n w).db.outbox
  unfolding run_rounds
  run_rounds-IsAnnounced zero w h = h
  run_rounds-IsAnnounced (suc n) w h =
      run_rounds-IsAnnounced n (publish_pending relay w) (publish_pending-Announced w h)
