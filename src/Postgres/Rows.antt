-- ===== src/Postgres/Rows.antt =====
-- What the statements promise each other (wallet_repository.go, wagertx_repository.go): the
-- optimistic lock, the idempotency key, and what is read back of what was written.
use wager_ledger.Base.{
  ℤ, eqb_ℤ-eq, true, false, Bytes, is_empty, str_eq, str_eq_refl, Option, none, some, List, [], ◌∷◌,
  ◌≡◌, ◌≢◌, refl, arith,
}
use wager_ledger.Errors.{ports, PortsError, ok, err}
use wager_ledger.Money.{Money, normalize_currency, from_minor_units, is_negative}
use wager_ledger.Wallet.{Wallet, currency, rehydrate}
use wager_ledger.Wallet.Exact.{IsValid}
use wager_ledger.Wagertx.{WagerTransaction}
use wager_ledger.Wagertx
use wager_ledger.Postgres.Tables.{
  WalletRow, Db, select_one, exists, update_where, nullable_string, deref, timestamptz,
  nullable_time,
}
use wager_ledger.Postgres.Wallets.{
  find_wallet, scan_wallet, wallet_row, create_wallet, save_wallet, at_version, set_balance,
}
use wager_ledger.Postgres.Transactions.{
  find_transaction, scan_wager_tx, transaction_row, transaction_checks, create_transaction,
  same_transaction,
}

no_version_left :
    (w v : Wallet) (p : ℤ) (rs : List WalletRow)
    → w.version ≢ p
    → v.id ≡ w.id
    → exists (at_version v p) (update_where (at_version w p) (set_balance w) rs) ≡ false
unfolding exists update_where
no_version_left w v p [] newer one = refl
no_version_left w v p (r ∷ rs) newer one =
    ground (arith, one, newer, eqb_ℤ-eq w.version p, no_version_left w v p rs newer one)

-- Two writers that have read a wallet at the same version cannot both save it: once one `Save` has
-- succeeded with another version than the one read, a `Save` of the same wallet at the version read
-- returns the error optimistic lock, whatever it would write.
pub save_wallet-second_writer :
    (w v : Wallet) (p : ℤ) (db : Db) {db' : Db}
    → w.version ≢ p
    → v.id ≡ w.id
    → save_wallet w p db ≡ ok db'
    → save_wallet v p db' ≡ err (ports PortsError.optimistic_lock)
unfolding save_wallet
save_wallet-second_writer w v p db newer one h =
    ground (arith, no_version_left w v p db.wallets newer one)

-- Once a transaction is created, another one with the same idempotency key is refused as already
-- there, if it satisfies the constraints on its columns.
pub create_transaction-twice :
    (t u : WagerTransaction) (db : Db) {db' : Db}
    → create_transaction t db ≡ ok db'
    → transaction_checks (transaction_row u) ≡ true
    → is_empty u.idempotency_key ≡ false
    → u.idempotency_key ≡ t.idempotency_key
    → create_transaction u db' ≡ err (ports PortsError.already_exists)
unfolding create_transaction same_transaction transaction_row exists nullable_string
create_transaction-twice t u db h checks keyed same =
    ground (arith, same, str_eq_refl t.idempotency_key)

deref-nullable_string : (s : Bytes) → deref (nullable_string s) ≡ s
unfolding deref nullable_string
deref-nullable_string [] = refl
deref-nullable_string (c ∷ s) = refl

from_minor_units_self :
    (m : Money)
    → normalize_currency m.currency ≡ ok m.currency
    → from_minor_units m.minor_units m.currency ≡ ok m
unfolding from_minor_units
from_minor_units_self m h = rw h

-- A money amount of a column, where there is one, with its currency as it is stored.
abbrev pub StoredResult : Option Money → Type 0
StoredResult none = Unit
StoredResult (some m) = normalize_currency m.currency ≡ ok m.currency

-- what the table keeps of a transaction: its times to the microsecond
unfoldable pub as_stored : WagerTransaction → WagerTransaction
as_stored t = record t {
  reference_next_retry_at = nullable_time t.reference_next_retry_at;
  created_at = timestamptz t.created_at;
  updated_at = timestamptz t.updated_at;
}

scan_wager_tx-row :
    (t : WagerTransaction) (result : Option Money)
    → t.financial_result ≡ result
    → is_empty t.id ≡ false
    → normalize_currency t.amount.currency ≡ ok t.amount.currency
    → StoredResult result
    → scan_wager_tx (some (transaction_row t)) ≡ ok (as_stored t)
unfolding scan_wager_tx transaction_row as_stored Wagertx.rehydrate
scan_wager_tx-row t none e has_id amount stored =
    rw (e, from_minor_units_self t.amount amount, has_id) (simp deref-nullable_string)
scan_wager_tx-row t (some m) e has_id amount stored =
    rw (e, from_minor_units_self t.amount amount, from_minor_units_self m stored, has_id)
      (simp deref-nullable_string)

create_transaction-ok :
    (t : WagerTransaction) (db : Db) {db' : Db}
    → create_transaction t db ≡ ok db'
    → db' ≡ record db { transactions = transaction_row t ∷ db.transactions }
unfolding create_transaction
create_transaction-ok t db h = ground arith

transaction_row-id : (t : WagerTransaction) → str_eq (transaction_row t).id t.id ≡ true
unfolding transaction_row
transaction_row-id t = str_eq_refl t.id

-- A transaction that was created is read back by its id as it was written, its three times cut down to
-- whole microseconds, if its id is not empty and its amount, and its financial result if it has one,
-- are in a currency's stored form.
pub find-create_transaction :
    (t : WagerTransaction) (db : Db) {db' : Db}
    → is_empty t.id ≡ false
    → normalize_currency t.amount.currency ≡ ok t.amount.currency
    → StoredResult t.financial_result
    → create_transaction t db ≡ ok db'
    → find_transaction t.id db' ≡ ok (as_stored t)
unfolding find_transaction select_one
find-create_transaction t db has_id amount stored h =
    let found : str_eq (transaction_row t).id t.id ≡ true = transaction_row-id t in
    rw (create_transaction-ok t db h, found)
      (scan_wager_tx-row t t.financial_result refl has_id amount stored)

-- A wallet that was created is read back by its id as it was written, its times cut down to whole
-- microseconds, if it is valid and its currency is in its stored form.
pub find-create_wallet :
    (w : Wallet) (db : Db) {db' : Db}
    → IsValid w
    → normalize_currency (currency w) ≡ ok (currency w)
    → create_wallet w db ≡ ok db'
    → find_wallet w.id db'
      ≡ ok (record w {
        created_at = timestamptz w.created_at;
        updated_at = timestamptz w.updated_at;
      })
unfolding create_wallet find_wallet select_one scan_wallet wallet_row rehydrate is_negative
find-create_wallet w db v c h = ground (
  arith,
  str_eq_refl w.id,
  from_minor_units_self w.balance c,
  v.has_id,
  v.has_player,
  v.balance_nonneg,
  v.version_positive,
)
