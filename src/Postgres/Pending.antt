-- ===== src/Postgres/Pending.antt =====
-- internal/infra/postgres/wagertx_repository.go: the lists of pending references.
use wager_ledger.Base.{ℕ, ltb_ℤ, Bool, true, not, ◌&&◌, Bytes, none, some, List, [], ◌∷◌}
use wager_ledger.Wallet.{Time}
use wager_ledger.Wagertx.{is_pending_reference}
use wager_ledger.Postgres.Queries.{created_before, select_all, order_by, limit}
use wager_ledger.Postgres.Tables.{TransactionRow, Db, timestamptz}

-- reference_next_retry_at IS NULL OR reference_next_retry_at <= now()
unfoldable pub is_retry_due : Time → TransactionRow → Bool
is_retry_due now r = elim r.reference_next_retry_at [ none ↦ true | some at ↦ not (ltb_ℤ now at) ]

unfoldable pub is_due_reference : Time → TransactionRow → Bool
unfolding is_retry_due
is_due_reference now r = is_pending_reference r.status && is_retry_due now r

unfoldable pub is_stale_reference : Time → TransactionRow → Bool
is_stale_reference older_than r = is_pending_reference r.status && ltb_ℤ r.created_at older_than

abbrev pub transaction_before : TransactionRow → TransactionRow → Bool
transaction_before r s = created_before (r.created_at, r.id) (s.created_at, s.id)

unfoldable pub ids_of : List TransactionRow → List Bytes
ids_of [] = []
ids_of (r ∷ rows) = r.id ∷ ids_of rows

-- `ListPendingReferenceIDs`, at the database's time `now`
unfoldable pub list_pending_reference_ids : ℕ → Time → Db → List Bytes
unfolding is_due_reference ids_of
list_pending_reference_ids n now db =
    ids_of
      (limit n (order_by transaction_before (select_all (is_due_reference now) db.transactions)))

-- `ListStalePendingReferenceIDs`
unfoldable pub list_stale_pending_reference_ids : Time → ℕ → Db → List Bytes
unfolding is_stale_reference ids_of
list_stale_pending_reference_ids older_than n db = ids_of (
    limit n (
      order_by transaction_before
        (select_all (is_stale_reference (timestamptz older_than)) db.transactions)))
