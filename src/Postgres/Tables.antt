-- ===== src/Postgres/Tables.antt =====
-- migrations/*.up.sql: the tables, with the statements on a list of rows that the repositories use.
use wager_ledger.Base.{
  ℕ, ℤ, pos, negsuc, ◌/◌, ◌*◌, ◌+◌, Bool, true, false, ◌||◌, Bytes, if◌then◌else◌, Option, none,
  some, List, [], ◌∷◌, leb, ◌&&◌, length, ◌==◌,
}
use wager_ledger.Wallet.{Time}
use wager_ledger.Wagertx.{Kind, Status}
use wager_ledger.Ledger.{Direction}
use wager_ledger.Event.{Data}

-- wallets (0001)
pub record WalletRow : Type 0 where
  pub id : Bytes
  pub player_id : Bytes
  pub currency : Bytes
  pub balance_minor_units : ℤ
  pub version : ℤ
  pub created_at : Time
  pub updated_at : Time

-- wager_transactions (0002, 0006); a nullable column is an `Option`. The columns kind and status
-- hold the texts of the constants, by the constraints wager_tx_kind_valid and wager_tx_status_valid.
pub record TransactionRow : Type 0 where
  pub id : Bytes
  pub kind : Kind
  pub status : Status
  pub wallet_id : Bytes
  pub player_id : Bytes
  pub amount_minor_units : ℤ
  pub currency : Bytes
  pub provider_id : Option Bytes
  pub external_transaction_id : Option Bytes
  pub idempotency_key : Option Bytes
  pub payload_hash : Option Bytes
  pub round_id : Option Bytes
  pub game_id : Option Bytes
  pub reference_external_transaction_id : Option Bytes
  pub resolved_reference_id : Option Bytes
  pub failure_code : Option Bytes
  pub financial_result_minor_units : Option ℤ
  pub financial_result_currency : Option Bytes
  pub reference_retry_attempts : ℕ
  pub reference_next_retry_at : Option Time
  pub created_at : Time
  pub updated_at : Time

-- wallet_ledger_entries (0003)
pub record EntryRow : Type 0 where
  pub id : Bytes
  pub wallet_id : Bytes
  pub transaction_id : Bytes
  pub direction : Direction
  pub amount_minor_units : ℤ
  pub currency : Bytes
  pub balance_before_minor_units : ℤ
  pub balance_after_minor_units : ℤ
  pub created_at : Time

-- inbox_messages (0004), without its surrogate key
pub record InboxRow : Type 0 where
  pub consumer_name : Bytes
  pub message_id : Bytes
  pub message_hash : Bytes
  pub completed : Bool

-- outbox_events (0004, 0009)
pub record OutboxRow : Type 0 where
  pub id : Bytes
  pub aggregate_id : Bytes
  pub event_type : Bytes
  pub payload : Data
  pub correlation_id : Option Bytes
  pub causation_id : Option Bytes
  pub occurred_at : Time
  pub version : ℕ
  pub attempts : ℕ
  pub next_attempt_at : Time
  pub published_at : Option Time
  pub locked_by : Option Bytes
  pub locked_at : Option Time

pub record Db : Type 0 where
  pub wallets : List WalletRow
  pub transactions : List TransactionRow
  pub entries : List EntryRow
  pub inbox : List InboxRow
  pub outbox : List OutboxRow

module _ {ℓ} {A : Type ℓ} where
  -- the row that `QueryRow` reads
  unfoldable pub select_one : (A → Bool) → List A → Option A
  select_one p [] = none
  select_one p (r ∷ rs) = if p r then some r else select_one p rs

  -- whether a statement with this condition affects a row
  unfoldable pub exists : (A → Bool) → List A → Bool
  exists p [] = false
  exists p (r ∷ rs) = p r || exists p rs

  -- UPDATE … SET f WHERE p
  unfoldable pub update_where : (A → Bool) → (A → A) → List A → List A
  update_where p f [] = []
  update_where p f (r ∷ rs) = (if p r then f r else r) ∷ update_where p f rs

is_upper : ℕ → Bool
is_upper c = leb b'A' c && leb c b'Z'

all_upper : Bytes → Bool
unfolding is_upper
all_upper [] = true
all_upper (c ∷ s) = is_upper c && all_upper s

-- currency ~ '^[A-Z]{3}$'
unfoldable pub currency_format : Bytes → Bool
unfolding all_upper
currency_format s = length s == 3 && all_upper s

-- `nullableString`
unfoldable pub nullable_string : Bytes → Option Bytes
nullable_string [] = none
nullable_string (c ∷ s) = some (c ∷ s)

-- `deref`
unfoldable pub deref : Option Bytes → Bytes
deref none = []
deref (some s) = s

-- A TIMESTAMPTZ column keeps microseconds; pgx drops what a time has below them.
unfoldable pub timestamptz : Time → Time
timestamptz (pos n) = pos (n / 1_000 * 1_000)
timestamptz (negsuc n) = negsuc (n / 1_000 * 1_000 + 999)

unfoldable pub nullable_time : Option Time → Option Time
unfolding timestamptz
nullable_time none = none
nullable_time (some t) = some (timestamptz t)
