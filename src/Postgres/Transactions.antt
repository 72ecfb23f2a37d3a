-- ===== src/Postgres/Transactions.antt =====
-- internal/infra/postgres/wagertx_repository.go over the table wager_transactions.
use wager_ledger.Base.{
  ℤ, pos, ltb_ℤ, eqb_ℤ, Bool, true, false, not, ◌||◌, ◌&&◌, Bytes, str_eq, if◌then◌else◌, Option,
  none, some, ◌∷◌,
}
use wager_ledger.Errors.{PortsError, ports, database, Result, ok, err, ◌>>=◌, ◌>>◌, fail_if}
use wager_ledger.Money.{Money, from_minor_units}
use wager_ledger.Wagertx.{
  WagerTransaction, Kind, bet, win, loss, refund, rollback, other, is_processed, is_reversal,
  is_opening, rehydrate,
}
use wager_ledger.Postgres.Tables.{
  WalletRow, TransactionRow, Db, select_one, exists, update_where, currency_format, nullable_string,
  deref, timestamptz, nullable_time,
}

-- a column that is not NULL and equals a parameter
abbrev pub column_is : Option Bytes → Bytes → Bool
column_is none s = false
column_is (some t) s = str_eq t s

abbrev is_null : Option Bytes → Bool
is_null none = true
is_null (some t) = false

scan_financial_result : Option ℤ → Option Bytes → Result (Option Money)
scan_financial_result (some n) (some currency) = do m ← from_minor_units n currency; ok (some m)
scan_financial_result _ none = ok none
scan_financial_result none _ = ok none

unfoldable pub scan_wager_tx : Option TransactionRow → Result WagerTransaction
unfolding scan_financial_result
scan_wager_tx none = err (ports PortsError.not_found)
scan_wager_tx (some r) = do
  amount ← from_minor_units r.amount_minor_units r.currency
  financial_result ←
      scan_financial_result r.financial_result_minor_units r.financial_result_currency
  rehydrate (record {
    id = r.id;
    kind = r.kind;
    status = r.status;
    wallet_id = r.wallet_id;
    player_id = r.player_id;
    amount = amount;
    provider_id = deref r.provider_id;
    external_id = deref r.external_transaction_id;
    idempotency_key = deref r.idempotency_key;
    payload_hash = deref r.payload_hash;
    round_id = deref r.round_id;
    game_id = deref r.game_id;
    reference_external_id = deref r.reference_external_transaction_id;
    resolved_reference_id = deref r.resolved_reference_id;
    failure_code = deref r.failure_code;
    financial_result = financial_result;
    reference_retry_attempts = r.reference_retry_attempts;
    reference_next_retry_at = r.reference_next_retry_at;
    created_at = r.created_at;
    updated_at = r.updated_at;
  })

abbrev pub transaction_has_id : Bytes → TransactionRow → Bool
transaction_has_id id r = str_eq r.id id

-- `FindByID`, and `FindByIDForUpdate`, whose row lock orders transactions and reads the same
unfoldable pub find_transaction : Bytes → Db → Result WagerTransaction
find_transaction id db = scan_wager_tx (select_one (transaction_has_id id) db.transactions)

abbrev pub is_operation : Bytes → Bytes → TransactionRow → Bool
is_operation provider_id external_id r =
    column_is r.provider_id provider_id && column_is r.external_transaction_id external_id

unfoldable pub find_by_provider_and_external_id : Bytes → Bytes → Db → Result WagerTransaction
find_by_provider_and_external_id provider_id external_id db =
    scan_wager_tx (select_one (is_operation provider_id external_id) db.transactions)

abbrev pub has_key : Bytes → TransactionRow → Bool
has_key idempotency_key r = column_is r.idempotency_key idempotency_key

unfoldable pub find_by_idempotency_key : Bytes → Db → Result WagerTransaction
find_by_idempotency_key idempotency_key db =
    scan_wager_tx (select_one (has_key idempotency_key) db.transactions)

-- resolved_reference_id = $1 AND kind IN ('REFUND', 'ROLLBACK') AND status = 'PROCESSED'
abbrev pub reverses : Bytes → TransactionRow → Bool
reverses reference_id r =
    column_is r.resolved_reference_id reference_id && is_reversal r.kind && is_processed r.status

unfoldable pub find_processed_reversal_by_reference : Bytes → Db → Result WagerTransaction
find_processed_reversal_by_reference reference_id db =
    scan_wager_tx (select_one (reverses reference_id) db.transactions)

abbrev result_units : Option Money → Option ℤ
result_units none = none
result_units (some m) = some m.minor_units

abbrev result_currency : Option Money → Option Bytes
result_currency none = none
result_currency (some m) = some m.currency

unfoldable pub transaction_row : WagerTransaction → TransactionRow
transaction_row t = record {
  id = t.id;
  kind = t.kind;
  status = t.status;
  wallet_id = t.wallet_id;
  player_id = t.player_id;
  amount_minor_units = t.amount.minor_units;
  currency = t.amount.currency;
  provider_id = nullable_string t.provider_id;
  external_transaction_id = nullable_string t.external_id;
  idempotency_key = nullable_string t.idempotency_key;
  payload_hash = nullable_string t.payload_hash;
  round_id = nullable_string t.round_id;
  game_id = nullable_string t.game_id;
  reference_external_transaction_id = nullable_string t.reference_external_id;
  resolved_reference_id = nullable_string t.resolved_reference_id;
  failure_code = nullable_string t.failure_code;
  financial_result_minor_units = result_units t.financial_result;
  financial_result_currency = result_currency t.financial_result;
  reference_retry_attempts = t.reference_retry_attempts;
  reference_next_retry_at = nullable_time t.reference_next_retry_at;
  created_at = timestamptz t.created_at;
  updated_at = timestamptz t.updated_at;
}

-- wager_tx_kind_valid
kind_valid : Kind → Bool
kind_valid (other s) = false
kind_valid bet = true
kind_valid _ = true

-- wager_tx_amount_by_kind
amount_by_kind : Kind → ℤ → Bool
amount_by_kind loss n = eqb_ℤ n (pos 0)
amount_by_kind _ n = ltb_ℤ (pos 0) n

-- wager_tx_kind_fields
kind_fields : TransactionRow → Bool
kind_fields r =
    if is_opening r.kind
    then is_null r.provider_id
      && is_null r.external_transaction_id
      && is_null r.idempotency_key
      && is_null r.payload_hash
      && is_null r.round_id
      && is_null r.game_id
      && is_null r.reference_external_transaction_id
    else not (is_null r.provider_id)
      && not (is_null r.external_transaction_id)
      && not (is_null r.idempotency_key)
      && not (is_null r.payload_hash)
      && not (is_null r.round_id)
      && not (is_null r.game_id)

-- wager_tx_reference_by_kind (0007)
reference_by_kind : Kind → Option Bytes → Bool
reference_by_kind refund reference = not (is_null reference)
reference_by_kind rollback reference = not (is_null reference)
reference_by_kind win reference = true
reference_by_kind _ reference = is_null reference

unfoldable pub transaction_checks : TransactionRow → Bool
unfolding kind_valid amount_by_kind kind_fields reference_by_kind
transaction_checks r =
    kind_valid r.kind
    && currency_format r.currency
    && amount_by_kind r.kind r.amount_minor_units
    && kind_fields r
    && reference_by_kind r.kind r.reference_external_transaction_id

-- columns that are both not NULL and equal
abbrev same_column : Option Bytes → Option Bytes → Bool
same_column none c = false
same_column (some s) c = column_is c s

-- the primary key, and the unique indexes on (provider_id, external_transaction_id), on
-- idempotency_key, on the OPENING of a wallet and on the processed reversal of a reference
unfoldable pub same_transaction : TransactionRow → TransactionRow → Bool
same_transaction r s =
    str_eq s.id r.id
    || (same_column r.provider_id s.provider_id
        && same_column r.external_transaction_id s.external_transaction_id)
    || same_column r.idempotency_key s.idempotency_key
    || (is_opening r.kind && is_opening s.kind && str_eq s.wallet_id r.wallet_id)
    || (is_reversal r.kind
        && is_processed r.status
        && is_reversal s.kind
        && is_processed s.status
        && same_column r.resolved_reference_id s.resolved_reference_id)

-- the foreign keys
references_exist : TransactionRow → Db → Bool
references_exist r db =
    exists (λ (w : WalletRow). str_eq w.id r.wallet_id) db.wallets
    && (is_null r.resolved_reference_id
        || exists (λ (s : TransactionRow). column_is r.resolved_reference_id s.id) db.transactions)

-- `Create`
unfoldable pub create_transaction : WagerTransaction → Db → Result Db
unfolding references_exist
create_transaction t db = do
  fail_if (not (transaction_checks (transaction_row t))) database
  fail_if (exists (same_transaction (transaction_row t)) db.transactions)
      (ports PortsError.already_exists)
  fail_if (not (references_exist (transaction_row t) db)) database
  ok (record db { transactions = transaction_row t ∷ db.transactions })

-- the columns that `Update` writes
abbrev pub set_outcome : WagerTransaction → TransactionRow → TransactionRow
set_outcome t r = record r {
  status = t.status;
  resolved_reference_id = nullable_string t.resolved_reference_id;
  failure_code = nullable_string t.failure_code;
  financial_result_minor_units = result_units t.financial_result;
  financial_result_currency = result_currency t.financial_result;
  reference_retry_attempts = t.reference_retry_attempts;
  reference_next_retry_at = nullable_time t.reference_next_retry_at;
  updated_at = timestamptz t.updated_at;
}

-- another row that is a processed reversal of the same transaction
reversed_elsewhere : WagerTransaction → TransactionRow → Bool
reversed_elsewhere t s =
    not (str_eq s.id t.id)
    && is_reversal t.kind
    && is_processed t.status
    && is_reversal s.kind
    && is_processed s.status
    && same_column (nullable_string t.resolved_reference_id) s.resolved_reference_id

-- `Update`; here a violated unique index is passed on without a class.
unfoldable pub update_transaction : WagerTransaction → Db → Result Db
unfolding reversed_elsewhere references_exist
update_transaction t db = do
  fail_if (not (exists (transaction_has_id t.id) db.transactions)) (ports PortsError.not_found)
  fail_if (exists (reversed_elsewhere t) db.transactions) database
  fail_if (not (references_exist (transaction_row t) db)) database
  ok (record db {
    transactions = update_where (transaction_has_id t.id) (set_outcome t) db.transactions;
  })
