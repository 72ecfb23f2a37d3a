-- ===== src/Publisher.antt =====
-- internal/infra/outbox/publisher.go: events of the outbox are claimed, sent to a queue, and marked as
-- published or as failed. Metrics and logs are left out.
pub mod Backoff
pub mod Sent
pub mod Retry
use wager_ledger.Base.{
  ℕ, zero, suc, ℤ, pos, negsuc, ◌+ℤ◌, ltb_ℤ, ltb, wrap64, ◌+◌, ◌-◌, ◌*◌, ◌^◌, Bool, true, false,
  ◌||◌, Bytes, Option, none, some, List, [], ◌∷◌, if◌then◌else◌,
}
use wager_ledger.Errors.{Result, ok, err}
use wager_ledger.Wallet.{Time}
use wager_ledger.Event.{Data}
use wager_ledger.Postgres.{OutboxRow, OutboxRecord, Db, claim, mark_published, mark_event_failed}
use wager_ledger.Usecase.Resume.{second}

abbrev pub lock_ttl : ℤ
lock_ttl = pos (30 * second)

abbrev pub claim_batch_size : ℕ
claim_batch_size = 20

abbrev pub max_backoff : ℕ
max_backoff = 300 * second

-- `envelope`; the payload is the data that its JSON holds
pub record EventEnvelope : Type 0 where
  pub event_id : Bytes
  pub event_type : Bytes
  pub aggregate_id : Bytes
  pub correlation_id : Bytes
  pub causation_id : Bytes
  pub occurred_at : Time
  pub version : ℕ
  pub payload : Data  -- `Data`

-- `SendMessageInput`, without the queue's address
pub record SendRequest : Type 0 where
  pub message_body : Bytes
  pub message_group_id : Bytes
  pub message_deduplication_id : Bytes

-- What a call of SQS comes to: the message is in the queue and the call returns; it is in the queue
-- and the answer is lost; it is not in the queue, and the call fails.
pub data Answer : Type 0 where
  accepted lost refused : Answer

-- `sent` are the messages that have come to the queue, and `tick` counts the calls of the database
-- and of the queue.
pub record Outbound : Type 0 where
  pub db : Db
  pub sent : List SendRequest
  pub tick : ℕ

-- What the publisher takes from outside: encoding/json, SQS, the clock of the service and that of
-- the database, what other processes do before a call of the database, the rows that they have
-- locked then, whether the context is done before a record, and the int64 that a float64 out of its
-- range is converted to.
pub record Relay : Type 0 where
  pub worker_id : Bytes
  pub marshal : EventEnvelope → Option Bytes
  pub answer : ℕ → SendRequest → Answer
  pub now : ℕ → Time
  pub db_now : ℕ → Time
  pub others : ℕ → Outbound → Outbound
  pub skipped : ℕ → OutboxRow → Bool
  pub done : ℕ → Bool
  pub out_of_range : ℤ

-- `time.Duration(math.Pow(2, float64(attempts)))`
unfoldable pub duration_of_power : ℤ → ℕ → ℤ
duration_of_power out_of_range attempts =
    if ltb attempts 63 then pos (2 ^ attempts) else out_of_range

-- `d * baseBackoff`, before it wraps around
unfoldable pub times_second : ℤ → ℤ
times_second (pos n) = pos (n * second)
times_second (negsuc n) = negsuc (suc n * second - 1)

-- `if d > maxBackoff || d <= 0 { return maxBackoff }`
unfoldable pub capped : ℤ → ℤ
capped d = if ltb_ℤ (pos max_backoff) d || ltb_ℤ d (pos 1) then pos max_backoff else d

unfoldable pub backoff : ℤ → ℕ → ℤ
unfolding duration_of_power times_second capped
backoff out_of_range attempts =
    capped (wrap64 (times_second (duration_of_power out_of_range attempts)))

unfoldable pub envelope_of : OutboxRecord → EventEnvelope
envelope_of rec = record {
  event_id = rec.id;
  event_type = rec.event_type;
  aggregate_id = rec.aggregate_id;
  correlation_id = rec.correlation_id;
  causation_id = rec.causation_id;
  occurred_at = rec.occurred_at;
  version = rec.version;
  payload = rec.payload;
}

unfoldable pub request_of : OutboxRecord → Bytes → SendRequest
request_of rec body = record {
  message_body = body;
  message_group_id = rec.aggregate_id;
  message_deduplication_id = rec.id;
}

module _ (relay : Relay) where
  -- before a call of the database
  unfoldable pub await : Outbound → Outbound
  await w = let v = relay.others w.tick w in record v { tick = w.tick + 1 }

  -- the tables that a statement leaves, and those that it found where it fails: the error is logged
  abbrev pub store : Outbound → Result Db → Outbound
  store w (ok db) = record w { db = db }
  store w (err e) = w

  -- `markFailed`
  unfoldable pub mark_failed : OutboxRecord → Outbound → Outbound
  unfolding await
  mark_failed rec w =
      let next = relay.now w.tick +ℤ backoff relay.out_of_range rec.attempts in
      store (await w) (mark_event_failed rec.id next (await w).db)

  -- the end of `publishOne`
  unfoldable pub confirm : OutboxRecord → Outbound → Outbound
  unfolding await
  confirm rec w = store (await w) (mark_published rec.id (relay.db_now w.tick) (await w).db)

  unfoldable pub after_send : OutboxRecord → SendRequest → Outbound → Answer → Outbound
  unfolding confirm mark_failed
  after_send rec request w accepted =
      confirm rec (record w { sent = request ∷ w.sent; tick = w.tick + 1 })
  after_send rec request w lost =
      mark_failed rec (record w { sent = request ∷ w.sent; tick = w.tick + 1 })
  after_send rec request w refused = mark_failed rec (record w { tick = w.tick + 1 })

  -- `publishOne` behind `json.Marshal`
  unfoldable pub after_marshal : OutboxRecord → Outbound → Option Bytes → Outbound
  unfolding after_send request_of
  after_marshal rec w none = mark_failed rec w
  after_marshal rec w (some body) =
      after_send rec (request_of rec body) w (relay.answer w.tick (request_of rec body))

  unfoldable pub publish_one : OutboxRecord → Outbound → Outbound
  unfolding after_marshal envelope_of
  publish_one rec w = after_marshal rec w (relay.marshal (envelope_of rec))

  -- the loop of `publishPending`
  unfoldable pub publish_all : List OutboxRecord → Outbound → Outbound
  unfolding publish_one
  publish_all [] w = w
  publish_all (rec ∷ records) w =
      let after = publish_all records (publish_one rec w) in if relay.done w.tick then w else after

  unfoldable pub publish_pending : Outbound → Outbound
  unfolding publish_all
  publish_pending w =
      let seen = await w in
      let (records, db) =
        claim (relay.skipped w.tick) relay.worker_id claim_batch_size lock_ttl (relay.db_now w.tick)
          seen.db in
      publish_all records (record seen { db = db })

  -- a number of rounds of `run`
  unfoldable pub run_rounds : ℕ → Outbound → Outbound
  unfolding publish_pending
  run_rounds zero w = w
  run_rounds (suc n) w = run_rounds n (publish_pending w)
