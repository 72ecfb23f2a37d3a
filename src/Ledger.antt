-- ===== src/Ledger.antt =====
-- internal/domain/ledger/ledger.go: an entry of a wallet's ledger.
pub mod Balance
use wager_ledger.Base.{
  Bool, true, false, not, ◌&&◌, ◌||◌, Bytes, is_empty, str_eq, if◌then◌else◌, codes,
}
use wager_ledger.Errors.{Error, LedgerError, ledger, Result, ok, err, ◌>>=◌, ◌>>◌, fail_if}
use wager_ledger.Money.{Money, is_negative, is_zero, add, sub, equals, no_money}
use wager_ledger.Wallet.{Time}

-- A Go `Direction` is a string: one of the two constants, or any other text.
pub data Direction : Type 0 where
  debit credit : Direction
  other : Bytes → Direction

unfoldable pub direction_text : Direction → Bytes
direction_text debit = codes "DEBIT"
direction_text credit = codes "CREDIT"
direction_text (other s) = s

pub record Entry : Type 0 where
  pub id : Bytes
  pub wallet_id : Bytes
  pub transaction_id : Bytes
  pub direction : Direction
  pub amount : Money
  pub balance_before : Money
  pub balance_after : Money
  pub created_at : Time

abbrev is_other : Direction → Bool
is_other (other s) = true
is_other _ = false

-- `balanceBefore` plus or minus the amount
expected_after : Direction → Money → Money → Result Money
expected_after debit balance_before amount = sub balance_before amount
expected_after credit balance_before amount = add balance_before amount
expected_after (other s) balance_before amount = ok no_money

unfoldable pub new_entry :
    Bytes → Bytes → Bytes → Direction → Money → Money → Money → Time → Result Entry
unfolding expected_after
new_entry id wallet_id transaction_id direction amount balance_before balance_after created_at = do
  fail_if (is_empty id) (ledger LedgerError.empty_id)
  fail_if (is_empty wallet_id) (ledger LedgerError.empty_wallet_id)
  fail_if (is_empty transaction_id) (ledger LedgerError.empty_transaction_id)
  fail_if (is_other direction) (ledger LedgerError.invalid_direction)
  fail_if (is_zero amount || is_negative amount) (ledger LedgerError.amount_must_be_positive)
  fail_if
      (not (str_eq amount.currency balance_before.currency)
        || not (str_eq amount.currency balance_after.currency))
      (ledger LedgerError.currency_mismatch)
  expected ← expected_after direction balance_before amount
  fail_if (not (equals expected balance_after)) (ledger LedgerError.balance_mismatch)
  ok (record {
    id = id;
    wallet_id = wallet_id;
    transaction_id = transaction_id;
    direction = direction;
    amount = amount;
    balance_before = balance_before;
    balance_after = balance_after;
    created_at = created_at;
  })
