-- ===== src/Postgres/Outbox.antt =====
-- internal/infra/postgres/outbox_repository.go and inbox_repository.go.
use wager_ledger.Base.{
  ℕ, ℤ, ◌+◌, ◌-ℤ◌, ltb_ℤ, ◌==◌, Bool, true, false, not, ◌&&◌, Bytes, str_eq, if◌then◌else◌, none,
  some, List, [], ◌∷◌,
}
use wager_ledger.Errors.{PortsError, ports, database, Result, ok, ◌>>=◌, ◌>>◌, fail_if}
use wager_ledger.Wallet.{Time}
use wager_ledger.Money.{marshal_json}
use wager_ledger.Event.{Event, Data, processed, balance_changed}
use wager_ledger.Postgres.Queries.{select_all, order_by, limit}
use wager_ledger.Postgres.Tables.{
  OutboxRow, Db, exists, update_where, nullable_string, deref, timestamptz,
}

-- the row that `Create` inserts at the database's time `now`; the payload keeps the data, which
-- encoding/json writes
unfoldable pub outbox_row : Event → Time → OutboxRow
outbox_row e now = record {
  id = e.id;
  aggregate_id = e.aggregate_id;
  event_type = e.event_type;
  payload = e.payload;
  correlation_id = nullable_string e.correlation_id;
  causation_id = nullable_string e.causation_id;
  occurred_at = timestamptz e.occurred_at;
  version = if e.version == 0 then 1 else e.version;
  attempts = 0;
  next_attempt_at = now;
  published_at = none;
  locked_by = none;
  locked_at = none;
}

-- `json.Marshal(e.Data)`, as far as it may fail: `Money.MarshalJSON` refuses an amount without a currency.
unfoldable pub marshal_payload : Data → Result (Unit {0})
marshal_payload (processed d) = do
  amount ← marshal_json d.amount
  elim d.financial_result [ none ↦ ok tt | some m ↦ do result ← marshal_json m; ok tt ]
marshal_payload (balance_changed d) = do
  amount ← marshal_json d.amount
  before ← marshal_json d.balance_before
  after ← marshal_json d.balance_after
  ok tt
marshal_payload _ = ok tt

-- `Create`
unfoldable pub create_outbox : Event → Time → Db → Result Db
create_outbox e now db = do
  marshal_payload e.payload
  fail_if (exists (λ (r : OutboxRow). str_eq r.id e.id) db.outbox) (ports PortsError.already_exists)
  ok (record db { outbox = outbox_row e now ∷ db.outbox })

-- `ports.OutboxRecord`; the payload is the data that its JSON holds
pub record OutboxRecord : Type 0 where
  pub id : Bytes
  pub aggregate_id : Bytes
  pub event_type : Bytes
  pub payload : Data
  pub correlation_id : Bytes
  pub causation_id : Bytes
  pub occurred_at : Time
  pub version : ℕ
  pub attempts : ℕ

unfoldable pub scan_outbox : OutboxRow → OutboxRecord
scan_outbox r = record {
  id = r.id;
  aggregate_id = r.aggregate_id;
  event_type = r.event_type;
  payload = r.payload;
  correlation_id = deref r.correlation_id;
  causation_id = deref r.causation_id;
  occurred_at = r.occurred_at;
  version = r.version;
  attempts = r.attempts;
}

-- locked_by IS NULL OR locked_at < now() - ttl, where a comparison with NULL does not hold
unfoldable pub is_free : ℤ → Time → OutboxRow → Bool
is_free ttl now r = elim r.locked_by [
  | none ↦ true
  | some worker ↦ elim r.locked_at [ none ↦ false | some at ↦ ltb_ℤ at (now -ℤ ttl) ]
]

-- published_at IS NULL
unfoldable pub is_unpublished : OutboxRow → Bool
is_unpublished r = elim r.published_at [ none ↦ true | some at ↦ false ]

-- the WHERE of `Claim`
unfoldable pub claimable : ℤ → Time → OutboxRow → Bool
unfolding is_free is_unpublished
claimable ttl now r = is_unpublished r && not (ltb_ℤ now r.next_attempt_at) && is_free ttl now r

-- ORDER BY occurred_at
abbrev pub occurs_before : OutboxRow → OutboxRow → Bool
occurs_before r s = not (ltb_ℤ s.occurred_at r.occurred_at)

-- The rows that the WITH clause selects. `skipped` are the rows that a concurrent transaction has
-- locked (SKIP LOCKED).
unfoldable pub claimed_rows : (OutboxRow → Bool) → ℕ → ℤ → Time → Db → List OutboxRow
unfolding claimable
claimed_rows skipped n ttl now db =
    limit n
      (order_by occurs_before (select_all (λ r. claimable ttl now r && not (skipped r)) db.outbox))

-- o.id = claimed.id
abbrev pub among : List OutboxRow → OutboxRow → Bool
among claimed r = exists (λ (c : OutboxRow). str_eq c.id r.id) claimed

abbrev pub lease : Bytes → Time → OutboxRow → OutboxRow
lease worker_id now r = record r { locked_by = some worker_id; locked_at = some now }

unfoldable pub scan_all : List OutboxRow → List OutboxRecord
scan_all [] = []
scan_all (r ∷ rows) = scan_outbox r ∷ scan_all rows

-- `Claim`; RETURNING gives the rows in an order that SQL leaves open, here that of the selection
unfoldable pub claim : (OutboxRow → Bool) → Bytes → ℕ → ℤ → Time → Db → List OutboxRecord × Db
unfolding claimed_rows scan_all
claim skipped worker_id n ttl now db =
    let claimed = claimed_rows skipped n ttl now db in
    (
      scan_all claimed,
      record db { outbox = update_where (among claimed) (lease worker_id now) db.outbox },
    )

abbrev pub event_has_id : Bytes → OutboxRow → Bool
event_has_id id r = str_eq r.id id

-- UPDATE … WHERE id = $1, which fails with `pgx.ErrNoRows` where no row is affected
unfoldable pub update_event : (OutboxRow → OutboxRow) → Bytes → Db → Result Db
update_event f id db = do
  fail_if (not (exists (event_has_id id) db.outbox)) database
  ok (record db { outbox = update_where (event_has_id id) f db.outbox })

abbrev pub published : Time → OutboxRow → OutboxRow
published now r = record r { published_at = some now; locked_by = none; locked_at = none }

-- `MarkPublished`
unfoldable pub mark_published : Bytes → Time → Db → Result Db
unfolding update_event
mark_published id now db = update_event (published now) id db

abbrev pub failed_attempt : Time → OutboxRow → OutboxRow
failed_attempt next_attempt_at r = record r {
  attempts = r.attempts + 1;
  next_attempt_at = next_attempt_at;
  locked_by = none;
  locked_at = none;
}

-- `MarkFailed`
unfoldable pub mark_event_failed : Bytes → Time → Db → Result Db
unfolding update_event
mark_event_failed id next_attempt_at db =
    update_event (failed_attempt (timestamptz next_attempt_at)) id db
