-- ===== src/Postgres/Entries.antt =====
-- internal/infra/postgres/ledger_repository.go over the table wallet_ledger_entries: the writes and
-- the sums. Rows are never changed or removed (0003's trigger).
use wager_ledger.Base.{
  ℕ, suc, ℤ, pos, ◌+ℤ◌, ◌-ℤ◌, ltb_ℤ, eqb_ℤ, Bool, false, not, ◌||◌, ◌&&◌, Bytes, is_empty, str_eq,
  if◌then◌else◌, List, ◌∷◌, [], max_int64, min_int64,
}
use wager_ledger.Errors.{PortsError, ports, database, Result, ok, ◌>>◌, fail_if}
use wager_ledger.Money.{Money, from_minor_units}
use wager_ledger.Ledger.{Entry, Direction, debit, credit, other}
use wager_ledger.Postgres.Queries.{text_le}
use wager_ledger.Postgres.Tables.{
  EntryRow, WalletRow, TransactionRow, Db, exists, currency_format, timestamptz,
}

unfoldable pub entry_row : Entry → EntryRow
entry_row e = record {
  id = e.id;
  wallet_id = e.wallet_id;
  transaction_id = e.transaction_id;
  direction = e.direction;
  amount_minor_units = e.amount.minor_units;
  currency = e.amount.currency;
  balance_before_minor_units = e.balance_before.minor_units;
  balance_after_minor_units = e.balance_after.minor_units;
  created_at = timestamptz e.created_at;
}

-- ledger_direction_valid and ledger_balance_math
balance_math : Direction → ℤ → ℤ → ℤ → Bool
balance_math debit amount before after = eqb_ℤ after (before -ℤ amount)
balance_math credit amount before after = eqb_ℤ after (before +ℤ amount)
balance_math (other s) amount before after = false

-- with ledger_amount_positive, ledger_currency_format and ledger_balance_after_non_negative
unfoldable pub entry_checks : EntryRow → Bool
unfolding balance_math
entry_checks r =
    ltb_ℤ (pos 0) r.amount_minor_units
    && currency_format r.currency
    && not (ltb_ℤ r.balance_after_minor_units (pos 0))
    && balance_math r.direction r.amount_minor_units r.balance_before_minor_units
        r.balance_after_minor_units

-- the primary key, and ledger_wallet_transaction_unique
abbrev same_entry : EntryRow → EntryRow → Bool
same_entry r s =
    str_eq s.id r.id || (str_eq s.wallet_id r.wallet_id && str_eq s.transaction_id r.transaction_id)

-- the foreign keys
entry_references_exist : EntryRow → Db → Bool
entry_references_exist r db =
    exists (λ (w : WalletRow). str_eq w.id r.wallet_id) db.wallets
    && exists (λ (t : TransactionRow). str_eq t.id r.transaction_id) db.transactions

-- `Create`
unfoldable pub create_entry : Entry → Db → Result Db
unfolding entry_references_exist
create_entry e db = do
  fail_if (not (entry_checks (entry_row e))) database
  fail_if (exists (same_entry (entry_row e)) db.entries) (ports PortsError.already_exists)
  fail_if (not (entry_references_exist (entry_row e) db)) database
  ok (record db { entries = entry_row e ∷ db.entries })

-- CASE WHEN direction = 'CREDIT' THEN amount_minor_units ELSE -amount_minor_units END
unfoldable pub entry_change : EntryRow → ℤ
entry_change r = elim r.direction [
  | credit ↦ r.amount_minor_units
  | debit ↦ pos 0 -ℤ r.amount_minor_units
  | other s ↦ pos 0 -ℤ r.amount_minor_units
]

-- SUM over the rows of a wallet; a numeric, which does not wrap
unfoldable pub entry_sum : Bytes → List EntryRow → ℤ
unfolding entry_change
entry_sum wallet_id [] = pos 0
entry_sum wallet_id (r ∷ rs) =
    let rest = entry_sum wallet_id rs in
    if str_eq r.wallet_id wallet_id then entry_change r +ℤ rest else rest

-- COALESCE(MAX(currency), '') over the rows of a wallet
unfoldable pub max_currency : Bytes → List EntryRow → Bytes
unfolding text_le
max_currency wallet_id [] = []
max_currency wallet_id (r ∷ rs) =
    let rest = max_currency wallet_id rs in
    if str_eq r.wallet_id wallet_id
    then (if text_le rest r.currency then r.currency else rest)
    else rest

-- `SumByWallet`: a sum outside int64 does not scan.
unfoldable pub sum_by_wallet : Bytes → Db → Result Money
sum_by_wallet wallet_id db = do
  let total = entry_sum wallet_id db.entries
  let currency = max_currency wallet_id db.entries
  fail_if (ltb_ℤ total min_int64 || ltb_ℤ max_int64 total) database
  fail_if (is_empty currency) (ports PortsError.not_found)
  from_minor_units total currency

-- `CountByWallet`
unfoldable pub count_by_wallet : Bytes → List EntryRow → ℕ
count_by_wallet wallet_id [] = 0
count_by_wallet wallet_id (r ∷ rs) =
    let rest = count_by_wallet wallet_id rs in
    if str_eq r.wallet_id wallet_id then suc rest else rest
