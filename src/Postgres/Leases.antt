-- ===== src/Postgres/Leases.antt =====
-- The leases of the outbox (outbox_repository.go): what its calls make of the rows, for the proofs in the
-- files below.
pub mod Exclusive
pub mod Fair
pub mod Published
use wager_ledger.Base.{
  Bool, true, false, Bytes, str_eq, List, [], ◌∷◌, ◌≡◌, refl, arith, Bool-cases, inl, inr,
}
use wager_ledger.Errors.{ok}
use wager_ledger.Wallet.{Time}
use wager_ledger.Event.{Event}
use wager_ledger.Postgres.Tables.{OutboxRow, Db, exists, update_where}
use wager_ledger.Postgres.Queries.Ordered.{IsOrder}
use wager_ledger.Postgres.Outbox.{
  OutboxRecord, scan_outbox, scan_all, outbox_row, create_outbox, event_has_id, update_event,
  occurs_before, among, claim,
}

pub occurs_before-IsOrder : IsOrder occurs_before
occurs_before-IsOrder = record {
  total = λ a b h. ground (arith, h);
  trans = λ a b c h k. ground (arith, h, k);
}

-- a record with the id is among those of a claim
abbrev pub has_record : Bytes → List OutboxRecord → Bool
has_record id records = exists (λ (r : OutboxRecord). str_eq r.id id) records

pub has_record-scan_all :
    (id : Bytes) (rows : List OutboxRow)
    → has_record id (scan_all rows) ≡ exists (λ (c : OutboxRow). str_eq c.id id) rows
unfolding exists scan_all scan_outbox
has_record-scan_all id [] = refl
has_record-scan_all id (r ∷ rows) = rw (has_record-scan_all id rows) refl

-- An update that keeps the ids neither adds an id nor takes one away.
pub exists-update :
    (id : Bytes) (p : OutboxRow → Bool) (f : OutboxRow → OutboxRow) (rows : List OutboxRow)
    → ((r : OutboxRow) → (f r).id ≡ r.id)
    → exists (event_has_id id) (update_where p f rows) ≡ exists (event_has_id id) rows
unfolding exists update_where
exists-update id p f [] same = refl
exists-update id p f (r ∷ rows) same = elim (Bool-cases (p r)) [
  | inl e ↦ rw (e, same r, exists-update id p f rows same) refl
  | inr e ↦ rw (e, exists-update id p f rows same) refl
]

-- what an update of an event, and a creation, come to where they succeed
pub update_event-ok :
    (f : OutboxRow → OutboxRow) (id : Bytes) (db : Db) {db' : Db}
    → update_event f id db ≡ ok db'
    → (exists (event_has_id id) db.outbox ≡ true)
      × (db' ≡ record db { outbox = update_where (event_has_id id) f db.outbox })
unfolding update_event
update_event-ok f id db h = (ground arith, ground arith)

pub create_outbox-ok :
    (e : Event) (now : Time) (db : Db) {db' : Db}
    → create_outbox e now db ≡ ok db'
    → (exists (event_has_id e.id) db.outbox ≡ false)
      × (db' ≡ record db { outbox = outbox_row e now ∷ db.outbox })
unfolding create_outbox
create_outbox-ok e now db h = (ground arith, ground arith)
