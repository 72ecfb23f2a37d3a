-- ===== src/Postgres/Wallets.antt =====
-- internal/infra/postgres/wallet_repository.go over the table wallets.
use wager_ledger.Base.{
  ℤ, pos, ltb_ℤ, eqb_ℤ, Bool, not, ◌||◌, ◌&&◌, Bytes, str_eq, Option, none, some, ◌∷◌,
}
use wager_ledger.Errors.{PortsError, ports, database, Result, ok, err, ◌>>=◌, ◌>>◌, fail_if}
use wager_ledger.Money.{from_minor_units}
use wager_ledger.Wallet.{Wallet, currency}
use wager_ledger.Wallet
use wager_ledger.Postgres.Tables.{
  WalletRow, Db, select_one, exists, update_where, currency_format, timestamptz,
}

abbrev pub wallet_has_id : Bytes → WalletRow → Bool
wallet_has_id id r = str_eq r.id id

unfoldable pub scan_wallet : Option WalletRow → Result Wallet
scan_wallet none = err (ports PortsError.not_found)
scan_wallet (some r) = do
  balance ← from_minor_units r.balance_minor_units r.currency
  Wallet.rehydrate r.id r.player_id balance r.version r.created_at r.updated_at

-- `FindByID`
unfoldable pub find_wallet : Bytes → Db → Result Wallet
find_wallet id db = scan_wallet (select_one (wallet_has_id id) db.wallets)

unfoldable pub find_wallet_by_player_and_currency : Bytes → Bytes → Db → Result Wallet
find_wallet_by_player_and_currency player_id currency_code db =
    scan_wallet
      (select_one (λ r. str_eq r.player_id player_id && str_eq r.currency currency_code) db.wallets)

unfoldable pub wallet_row : Wallet → WalletRow
wallet_row w = record {
  id = w.id;
  player_id = w.player_id;
  currency = currency w;
  balance_minor_units = w.balance.minor_units;
  version = w.version;
  created_at = timestamptz w.created_at;
  updated_at = timestamptz w.updated_at;
}

-- wallets_balance_non_negative, wallets_version_positive, wallets_currency_format
unfoldable pub wallet_checks : WalletRow → Bool
wallet_checks r =
    not (ltb_ℤ r.balance_minor_units (pos 0))
    && not (ltb_ℤ r.version (pos 1))
    && currency_format r.currency

-- the primary key, and wallets_player_currency_unique
unfoldable pub same_wallet : WalletRow → WalletRow → Bool
same_wallet r s =
    str_eq s.id r.id || (str_eq s.player_id r.player_id && str_eq s.currency r.currency)

-- `Create`
unfoldable pub create_wallet : Wallet → Db → Result Db
create_wallet w db = do
  fail_if (not (wallet_checks (wallet_row w))) database
  fail_if (exists (same_wallet (wallet_row w)) db.wallets) (ports PortsError.already_exists)
  ok (record db { wallets = wallet_row w ∷ db.wallets })

-- WHERE id = $4 AND version = $5
abbrev pub at_version : Wallet → ℤ → WalletRow → Bool
at_version w previous_version r = str_eq r.id w.id && eqb_ℤ r.version previous_version

-- SET balance_minor_units = $1, version = $2, updated_at = $3
abbrev pub set_balance : Wallet → WalletRow → WalletRow
set_balance w r = record r {
  balance_minor_units = w.balance.minor_units;
  version = w.version;
  updated_at = timestamptz w.updated_at;
}

-- `Save`, which succeeds only at the version that was read.
unfoldable pub save_wallet : Wallet → ℤ → Db → Result Db
save_wallet w previous_version db = do
  fail_if (not (exists (at_version w previous_version) db.wallets))
      (ports PortsError.optimistic_lock)
  fail_if (ltb_ℤ w.balance.minor_units (pos 0) || ltb_ℤ w.version (pos 1)) database
  ok (record db {
    wallets = update_where (at_version w previous_version) (set_balance w) db.wallets;
  })
