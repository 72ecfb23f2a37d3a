-- ===== src/Postgres/Pages.antt =====
-- internal/infra/postgres/ledger_repository.go: `ListByWallet`, a page of a wallet's ledger, with the
-- cursor that leads to the next one.
pub mod Cursor
pub mod Order
pub mod Scans
pub mod Complete
use wager_ledger.Base.{
  ℕ, zero, suc, ℤ, pos, negsuc, ltb, ◌+◌, ◌==◌, Bool, true, false, not, ◌&&◌, Bytes, str_eq,
  is_empty, Option, none, some, List, [], ◌∷◌, ◌++◌, length, if◌then◌else◌,
}
use wager_ledger.Errors.{Error, Result, ok, err, ◌>>=◌}
use wager_ledger.Money.{from_minor_units}
use wager_ledger.Wallet.{Time}
use wager_ledger.Ledger.{Entry, new_entry}
use wager_ledger.Postgres.Queries.{created_before, select_all, order_by, limit}
use wager_ledger.Postgres.Tables.{EntryRow, Db}

-- The layout RFC3339Nano of package time, and base64.RawURLEncoding; `none` is an error.
pub record Codec : Type 0 where
  pub format_time : Time → Bytes
  pub parse_time : Bytes → Option Time
  pub encode_base64 : Bytes → Bytes
  pub decode_base64 : Bytes → Option Bytes

-- a page with the cursor of the next one, or why there is none
pub data Listing : Type 0 where
  invalid_cursor : Listing
  failed : Error → Listing
  page : List Entry → Bytes → Listing

-- `strings.SplitN(raw, "|", 2)`, where there is a bar
unfoldable pub split_bar : Bytes → Option (Bytes × Bytes)
split_bar [] = none
split_bar (b ∷ s) =
    let rest = split_bar s in
    if b == b'|'
    then some ([], s)
    else elim rest [ none ↦ none | some parts ↦ some (b ∷ parts.0, parts.1) ]

unfoldable pub entry_key : EntryRow → Time × Bytes
entry_key r = (r.created_at, r.id)

abbrev pub entry_before : EntryRow → EntryRow → Bool
entry_before r s = created_before (entry_key r) (entry_key s)

-- (created_at, id) > ($2, $3), where there is a cursor
unfoldable pub is_after : Option (Time × Bytes) → EntryRow → Bool
unfolding entry_key
is_after none r = true
is_after (some key) r = not (created_before (entry_key r) key)

-- the rows of the query
unfoldable pub page_rows : Bytes → Option (Time × Bytes) → ℕ → Db → List EntryRow
unfolding is_after
page_rows wallet_id after n db = limit n (
    order_by entry_before
      (select_all (λ r. str_eq r.wallet_id wallet_id && is_after after r) db.entries))

-- an entry of the wallet from its row
unfoldable pub scan_entry : Bytes → EntryRow → Result Entry
scan_entry wallet_id r = do
  amount ← from_minor_units r.amount_minor_units r.currency
  before ← from_minor_units r.balance_before_minor_units r.currency
  after ← from_minor_units r.balance_after_minor_units r.currency
  new_entry r.id wallet_id r.transaction_id r.direction amount before after r.created_at

-- the loop over the rows
unfoldable pub scan_entries : Bytes → List EntryRow → Result (List Entry)
unfolding scan_entry
scan_entries wallet_id [] = ok []
scan_entries wallet_id (r ∷ rows) = do
  entry ← scan_entry wallet_id r
  rest ← scan_entries wallet_id rows
  ok (entry ∷ rest)

-- `limit`, or `defaultLedgerPageSize`
unfoldable pub page_size : ℤ → ℕ
page_size (pos zero) = 50
page_size (pos (suc n)) = suc n
page_size (negsuc n) = 50

abbrev pub with_id : Bytes → Option Time → Option (Time × Bytes)
with_id id none = none
with_id id (some created_at) = some (created_at, id)

module _ (codec : Codec) where
  unfoldable pub encode_ledger_cursor : Time × Bytes → Bytes
  encode_ledger_cursor (created_at, id) =
      codec.encode_base64 (codec.format_time created_at ++ b'|' ∷ id)

  abbrev pub parse_parts : Option (Bytes × Bytes) → Option (Time × Bytes)
  parse_parts none = none
  parse_parts (some (at, id)) = with_id id (codec.parse_time at)

  abbrev pub parse_raw : Option Bytes → Option (Time × Bytes)
  parse_raw none = none
  parse_raw (some raw) = parse_parts (split_bar raw)

  -- `none` is an error
  unfoldable pub decode_ledger_cursor : Bytes → Option (Time × Bytes)
  unfolding split_bar
  decode_ledger_cursor cursor = parse_raw (codec.decode_base64 cursor)

  -- the cursor behind `entries[limit-1]`
  unfoldable pub cursor_at : ℕ → List Entry → Bytes
  unfolding encode_ledger_cursor
  cursor_at n [] = []
  cursor_at zero (e ∷ es) = []
  cursor_at (suc zero) (e ∷ es) = encode_ledger_cursor (e.created_at, e.id)
  cursor_at (suc (suc n)) (e ∷ es) = cursor_at (suc n) es

  -- the entries that were read, one more than the page takes if there are more
  unfoldable pub cut_page : ℕ → Result (List Entry) → Listing
  unfolding cursor_at
  cut_page n (err e) = failed e
  cut_page n (ok entries) =
      if ltb n (length entries)
      then page (limit n entries) (cursor_at n entries)
      else page entries []

  unfoldable pub list_after : Bytes → Option (Time × Bytes) → ℤ → Db → Listing
  unfolding cut_page page_rows scan_entries
  list_after wallet_id after wanted db =
      let n = page_size wanted in
      cut_page n (scan_entries wallet_id (page_rows wallet_id after (suc n) db))

  abbrev pub list_decoded : Bytes → ℤ → Db → Option (Time × Bytes) → Listing
  list_decoded wallet_id wanted db none = invalid_cursor
  list_decoded wallet_id wanted db (some key) = list_after wallet_id (some key) wanted db

  -- `ListByWallet`
  unfoldable pub list_by_wallet : Bytes → Bytes → ℤ → Db → Listing
  unfolding list_after decode_ledger_cursor
  list_by_wallet wallet_id cursor wanted db =
      if is_empty cursor
      then list_after wallet_id none wanted db
      else list_decoded wallet_id wanted db (decode_ledger_cursor cursor)
