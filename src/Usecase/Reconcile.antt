-- ===== src/Usecase/Reconcile.antt =====
-- internal/application/usecase/reconcile_wallet.go. The reads share one snapshot (REPEATABLE READ),
-- so they are a function of one state of the tables. Metrics and the log are left out.
use wager_ledger.Base.{ℕ, Bool, Bytes, ◌==◌, if◌then◌else◌}
use wager_ledger.Errors.{Result, ok, ◌>>=◌}
use wager_ledger.Money.{Money, zero_money, is_zero, sub}
use wager_ledger.Wallet.{Wallet}
use wager_ledger.Postgres.{Db, find_wallet, count_by_wallet, sum_by_wallet}

pub record ReconcileOutput : Type 0 where
  pub wallet_id : Bytes
  pub stored_balance : Money
  pub calculated_balance : Money
  pub difference : Money
  pub consistent : Bool
  pub checked_entries : ℕ

unfoldable pub calculated_balance : Bytes → Wallet → Db → Result Money
calculated_balance wallet_id w db =
    if count_by_wallet wallet_id db.entries == 0
    then zero_money w.balance.currency
    else sum_by_wallet wallet_id db

unfoldable pub reconcile : Bytes → Db → Result ReconcileOutput
unfolding calculated_balance
reconcile wallet_id db = do
  w ← find_wallet wallet_id db
  calculated ← calculated_balance wallet_id w db
  difference ← sub w.balance calculated
  ok (record {
    wallet_id = wallet_id;
    stored_balance = w.balance;
    calculated_balance = calculated;
    difference = difference;
    consistent = is_zero difference;
    checked_entries = count_by_wallet wallet_id db.entries;
  })
