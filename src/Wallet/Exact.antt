-- ===== src/Wallet/Exact.antt =====
-- The movements of a wallet on valid wallets and amounts, computed exactly.
use wager_ledger.Base.{
  ℤ, pos, ◌+ℤ◌, ◌-ℤ◌, ◌≤ℤ◌, ◌<ℤ◌, ltb_ℤ, max_int64, true, false, is_empty, str_eq, if◌then◌else◌,
  ◌≡◌, arith, int_laws, +ℤ_parts, -ℤ_parts, wrap64, str_eq_refl, wrap64_self,
}
use wager_ledger.Errors.{WalletError, wallet, money, overflow, ok, err}
use wager_ledger.Money.{Money, is_negative, is_zero}
use wager_ledger.Money.Arithmetic.{Alike, add-sub_exact}
use wager_ledger.Wallet.{Wallet, Time, currency, debit, credit}

-- What a stored wallet satisfies.
pub record IsValid (w : Wallet) : Type 0 where
  pub has_id : is_empty w.id ≡ false
  pub has_player : is_empty w.player_id ≡ false
  pub has_currency : is_empty (currency w) ≡ false
  pub balance_nonneg : pos 0 ≤ℤ w.balance.minor_units
  pub balance_fits : w.balance.minor_units ≤ℤ max_int64
  pub version_positive : pos 1 ≤ℤ w.version
  pub version_fits : w.version ≤ℤ max_int64

-- A movement's amount: positive, an int64, in the wallet's currency.
pub record IsAmount (w : Wallet) (amount : Money) : Type 0 where
  pub positive : pos 0 <ℤ amount.minor_units
  pub fits : amount.minor_units ≤ℤ max_int64
  pub one_currency : currency w ≡ amount.currency

Alike-amount :
    (w : Wallet) (amount : Money) → IsValid w → IsAmount w amount → Alike w.balance amount
Alike-amount w amount v a = record {
  has_currency = v.has_currency;
  one_currency = a.one_currency;
  left_fits = (omega (arith, v.balance_nonneg), v.balance_fits);
  right_fits = (omega (arith, a.positive), a.fits);
}

abbrev pub after : Wallet → ℤ → Time → Wallet
after w n now = record w {
  balance = record (w.balance) { minor_units = n };
  version = w.version +ℤ pos 1;
  updated_at = now;
}

str_eq_amount :
    (w : Wallet) (amount : Money) → IsAmount w amount → str_eq amount.currency (currency w) ≡ true
str_eq_amount w amount a = rw a.one_currency (str_eq_refl amount.currency)

pub wrap64_version :
    (w : Wallet)
    → IsValid w
    → w.version <ℤ max_int64
    → wrap64 (w.version +ℤ pos 1) ≡ w.version +ℤ pos 1
wrap64_version w v room =
    wrap64_self (w.version +ℤ pos 1) (omega (int_laws, v.version_positive), omega int_laws)

-- On a valid wallet whose version can still grow, a debit of a positive int64 amount in the wallet's
-- currency takes exactly that amount, adds 1 to the
-- version and sets the time of the change, if the balance covers it; otherwise it returns the error
-- insufficient balance and leaves the wallet as it was.
pub debit_exact :
    (w : Wallet) (amount : Money) (now : Time)
    → IsValid w
    → w.version <ℤ max_int64
    → IsAmount w amount
    → debit w amount now ≡ (
        if ltb_ℤ w.balance.minor_units amount.minor_units
        then (w, err (wallet WalletError.insufficient_balance))
        else (after w (w.balance.minor_units -ℤ amount.minor_units) now, ok tt))
unfolding debit is_negative is_zero
debit_exact w amount now v room a = ground (
  arith,
  a.positive,
  str_eq_amount w amount a,
  wrap64_version w v room,
  (add-sub_exact w.balance amount (Alike-amount w amount v a)).1,
  -ℤ_parts w.balance.minor_units amount.minor_units,
)

-- On a valid wallet whose version can still grow, a credit of a positive int64 amount in the wallet's
-- currency gives exactly that amount, adds 1 to the
-- version and sets the time of the change, if the new balance is an int64; otherwise it returns the
-- error overflow and leaves the wallet as it was.
pub credit_exact :
    (w : Wallet) (amount : Money) (now : Time)
    → IsValid w
    → w.version <ℤ max_int64
    → IsAmount w amount
    → credit w amount now ≡ (
        if ltb_ℤ max_int64 (w.balance.minor_units +ℤ amount.minor_units)
        then (w, err (money overflow))
        else (after w (w.balance.minor_units +ℤ amount.minor_units) now, ok tt))
unfolding credit is_negative is_zero
credit_exact w amount now v room a = ground (
  arith,
  a.positive,
  str_eq_amount w amount a,
  wrap64_version w v room,
  (add-sub_exact w.balance amount (Alike-amount w amount v a)).0,
  +ℤ_parts w.balance.minor_units amount.minor_units,
)
