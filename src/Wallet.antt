-- ===== src/Wallet.antt =====
-- internal/domain/wallet/wallet.go: the wallet aggregate. A method on `*Wallet` returns the wallet
-- as it stands after the call, beside its error.
pub mod Exact
pub mod Moves
use wager_ledger.Base.{
  ℤ, pos, negsuc, ◌+ℤ◌, ltb_ℤ, wrap64, Bool, true, false, not, ◌||◌, Bytes, is_empty, str_eq,
  if◌then◌else◌,
}
use wager_ledger.Errors.{Error, WalletError, wallet, Result, ok, err, ◌>>=◌, ◌>>◌, fail_if}
use wager_ledger.Money.{Money, is_negative, is_zero, add, sub}

-- `time.Time`, in nanoseconds from the Unix epoch; `UTC()` changes no instant.
abbrev pub Time : Type 0
Time = ℤ

pub record Wallet : Type 0 where
  pub id : Bytes
  pub player_id : Bytes
  pub balance : Money
  pub version : ℤ  -- int64
  pub created_at : Time
  pub updated_at : Time

unfoldable pub new_wallet : Bytes → Bytes → Money → Time → Result Wallet
new_wallet id player_id initial_balance now = do
  fail_if (is_empty id) (wallet WalletError.empty_id)
  fail_if (is_empty player_id) (wallet WalletError.empty_player_id)
  fail_if (is_negative initial_balance) (wallet WalletError.negative_initial)
  ok (record {
    id = id;
    player_id = player_id;
    balance = initial_balance;
    version = pos 1;
    created_at = now;
    updated_at = now;
  })

unfoldable pub rehydrate : Bytes → Bytes → Money → ℤ → Time → Time → Result Wallet
rehydrate id player_id balance version created_at updated_at = do
  fail_if (is_empty id) (wallet WalletError.empty_id)
  fail_if (is_empty player_id) (wallet WalletError.empty_player_id)
  fail_if (is_negative balance) (wallet WalletError.negative_initial)
  fail_if (ltb_ℤ version (pos 1)) (wallet WalletError.invalid_version)
  ok (record {
    id = id;
    player_id = player_id;
    balance = balance;
    version = version;
    created_at = created_at;
    updated_at = updated_at;
  })

-- `w.Currency()`
abbrev pub currency : Wallet → Bytes
currency w = w.balance.currency

-- The tests that `Debit` and `Credit` begin with.
check_amount : Wallet → Money → Result (Unit {0})
check_amount w amount = do
  fail_if (is_negative amount || is_zero amount) (wallet WalletError.amount_must_be_positive)
  fail_if (not (str_eq amount.currency (currency w))) (wallet WalletError.currency_mismatch)

-- `w.balance = newBalance; w.version++; w.updatedAt = now`
moved : Wallet → Money → Time → Wallet
moved w new_balance now = record w {
  balance = new_balance;
  version = wrap64 (w.version +ℤ pos 1);
  updated_at = now;
}

-- Either the new wallet, or the wallet as it was with the error.
commit : Wallet → Result Wallet → Wallet × Result (Unit {0})
commit w (ok w') = (w', ok tt)
commit w (err e) = (w, err e)

unfoldable pub debit : Wallet → Money → Time → Wallet × Result (Unit {0})
unfolding check_amount moved commit
debit w amount now = commit w (do
  check_amount w amount
  new_balance ← sub w.balance amount
  fail_if (is_negative new_balance) (wallet WalletError.insufficient_balance)
  ok (moved w new_balance now))

unfoldable pub credit : Wallet → Money → Time → Wallet × Result (Unit {0})
unfolding check_amount moved commit
credit w amount now =
    commit w
      (do check_amount w amount; new_balance ← add w.balance amount; ok (moved w new_balance now))
