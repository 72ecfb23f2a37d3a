-- ===== src/Books/Inserts.antt =====
-- The drift of an entry, of a new wallet, and of the writes to the other tables.
use wager_ledger.Base.{
  All, IsInt64, Bool, List, [], ℤ, pos, ◌+ℤ◌, int_laws, eq-parts, Bytes, str_eq, Bool-cases, ◌∷◌,
  ◌≡◌, refl, arith, inl, inr,
}
use wager_ledger.Errors.{ok}
use wager_ledger.Wallet.{Time}
use wager_ledger.Wagertx.{WagerTransaction}
use wager_ledger.Ledger.{Entry}
use wager_ledger.Event.{Event}
use wager_ledger.Postgres.{
  TransactionRow, transaction_row, transaction_has_id, set_outcome, update_where, Db, entry_sum,
  entry_change, entry_row, create_entry, create_transaction, update_transaction, create_outbox,
}
use wager_ledger.Books.Drift.{IsTable, Drift, still, only}
use wager_ledger.Books.Kept.{Kept, Kept-same, Kept-transactions, exists-cons}

-- A write to the other tables moves neither balances nor sums.
pub SameBooks-Drift :
    (db db' : Db)
    → IsTable db.wallets
    → db'.wallets ≡ db.wallets
    → db'.entries ≡ db.entries
    → Kept db db'
    → Drift still db db'
SameBooks-Drift db db' t w e kept = record {
  books = λ k. rw (w, e) (omega int_laws);
  grows = λ k. rw w (omega arith);
  stable = λ k _. rw w;
  table = rw w t;
  kept = kept;
}

pub create_transaction-Drift :
    (t : WagerTransaction) (db : Db) {db' : Db}
    → IsTable db.wallets
    → IsInt64 t.amount.minor_units
    → create_transaction t db ≡ ok db'
    → Drift still db db'
unfolding create_transaction transaction_row
create_transaction-Drift t db {db'} table fits h =
    let same : db' ≡ record db { transactions = transaction_row t ∷ db.transactions } =
      ground (arith, h) in
    rw same (
      SameBooks-Drift db _ table refl refl
        (Kept-transactions db (transaction_row t ∷ db.transactions) (λ a. (fits, a))))

-- the outcome leaves the amount alone
outcomes-HasAmounts :
    (p : TransactionRow → Bool) (t : WagerTransaction) (rows : List TransactionRow)
    → All (λ (r : TransactionRow). IsInt64 r.amount_minor_units) rows
    → All
        (λ (r : TransactionRow). IsInt64 r.amount_minor_units)
        (update_where p (set_outcome t) rows)
unfolding update_where
outcomes-HasAmounts p t [] h = tt
outcomes-HasAmounts p t (r ∷ rows) (a, h) = elim (Bool-cases (p r)) [
  | inl e ↦ rw e (a, outcomes-HasAmounts p t rows h)
  | inr e ↦ rw e (a, outcomes-HasAmounts p t rows h)
]

pub update_transaction-Drift :
    (t : WagerTransaction) (db : Db) {db' : Db}
    → IsTable db.wallets
    → update_transaction t db ≡ ok db'
    → Drift still db db'
unfolding update_transaction
update_transaction-Drift t db {db'} table h =
    let rows = update_where (transaction_has_id t.id) (set_outcome t) db.transactions in
    let same : db' ≡ record db { transactions = rows } = ground (arith, h) in
    rw same (
      SameBooks-Drift db _ table refl refl (
        Kept-transactions db rows
          (outcomes-HasAmounts (transaction_has_id t.id) t db.transactions)))

pub create_outbox-Drift :
    (e : Event) (now : Time) (db : Db) {db' : Db}
    → IsTable db.wallets
    → create_outbox e now db ≡ ok db'
    → Drift still db db'
unfolding create_outbox
create_outbox-Drift e now db {db'} table h =
    SameBooks-Drift db db' table (ground arith) (ground arith)
      (Kept-same db db' (ground arith) (ground arith) (ground arith))

create_entry-ok :
    (e : Entry) (db : Db) {db' : Db}
    → create_entry e db ≡ ok db'
    → db' ≡ record db { entries = entry_row e ∷ db.entries }
unfolding create_entry
create_entry-ok e db h = ground arith

entry_sum-insert :
    (e : Entry) (db : Db) (k : Bytes)
    → entry_sum k (entry_row e ∷ db.entries)
      ≡ entry_sum k db.entries +ℤ only e.wallet_id (entry_change (entry_row e)) k
unfolding entry_sum entry_row
entry_sum-insert e db k = elim (Bool-cases (str_eq e.wallet_id k)) [
  | inl same ↦ rw same (omega int_laws)
  | inr ne ↦ rw ne (omega int_laws)
]

-- The drift of an entry: the sum changes, in its wallet alone.
pub create_entry-Drift :
    (e : Entry) (n : ℤ) (db : Db) {db' : Db}
    → IsTable db.wallets
    → entry_change (entry_row e) +ℤ n ≡ pos 0
    → create_entry e db ≡ ok db'
    → Drift (only e.wallet_id n) db db'
create_entry-Drift e n db table opposite h = rw (create_entry-ok e db h) (record {
  books = λ k. rw (entry_sum-insert e db k) (elim (Bool-cases (str_eq e.wallet_id k)) [
    | inl same ↦ rw same (omega (int_laws, eq-parts _ _ opposite))
    | inr ne ↦ rw ne (omega int_laws)
  ]);
  grows = λ k. omega arith;
  stable = λ k _. refl;
  table = table;
  kept = record {
    ledger = λ p. exists-cons p (entry_row e) db.entries;
    inbox = λ c m h. h;
    amounts = λ h. h;
  };
})
