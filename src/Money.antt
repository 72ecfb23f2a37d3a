-- ===== src/Money.antt =====
-- internal/domain/money/money.go: money in minor units of a currency, the arithmetic on int64 with
-- its overflow tests, and the way in and out of text.
pub mod Currency
pub mod Amount
pub mod Arithmetic
pub mod Json
unfoldable pub use Currency.{normalize_currency}
unfoldable pub use Amount.{
  parse_decimal_to_minor_units, print_minor_units, print_nat, print_two, value, is_all_digits,
}
use wager_ledger.Base.{
  ℤ, pos, negsuc, ◌+ℤ◌, ◌-ℤ◌, ltb_ℤ, eqb_ℤ, wrap64, min_int64, Bool, true, false, not, ◌&&◌, ◌||◌,
  Option, none, some, Bytes, is_empty, str_eq, if◌then◌else◌, [],
}
use wager_ledger.Errors.{
  MoneyError, invalid_format, negative_not_allowed, empty_currency, currency_mismatch, overflow,
  Error, money, Result, ok, err, ◌>>=◌, ◌>>◌, fail_if,
}

pub record Money : Type 0 where
  pub minor_units : ℤ
  pub currency : Bytes

-- `Money{}`
abbrev pub no_money : Money
no_money = record { minor_units = pos 0; currency = [] }

unfoldable pub zero_money : Bytes → Result Money
zero_money currency = do
  cur ← normalize_currency currency
  ok (record { minor_units = pos 0; currency = cur })

unfoldable pub from_decimal_string : Bytes → Bytes → Result Money
from_decimal_string amount currency = do
  cur ← normalize_currency currency
  minor_units ← parse_decimal_to_minor_units amount
  fail_if (ltb_ℤ minor_units (pos 0)) (money negative_not_allowed)
  ok (record { minor_units = minor_units; currency = cur })

unfoldable pub from_minor_units : ℤ → Bytes → Result Money
from_minor_units minor_units currency = do
  cur ← normalize_currency currency
  ok (record { minor_units = minor_units; currency = cur })

unfoldable pub is_negative : Money → Bool
is_negative m = ltb_ℤ m.minor_units (pos 0)

unfoldable pub is_zero : Money → Bool
is_zero m = eqb_ℤ m.minor_units (pos 0)

-- `(b > 0 && sum < a) || (b < 0 && sum > a)` on the wrapped sum
unfoldable pub add_int64 : ℤ → ℤ → Option ℤ
add_int64 a b =
    let sum = wrap64 (a +ℤ b) in
    if (ltb_ℤ (pos 0) b && ltb_ℤ sum a) || (ltb_ℤ b (pos 0) && ltb_ℤ a sum) then none else some sum

unfoldable pub sub_int64 : ℤ → ℤ → Option ℤ
sub_int64 a b =
    let diff = wrap64 (a -ℤ b) in
    if (ltb_ℤ b (pos 0) && ltb_ℤ diff a) || (ltb_ℤ (pos 0) b && ltb_ℤ a diff)
    then none
    else some diff

-- The tests that `Add`, `Sub` and `Compare` begin with.
unfoldable pub same_currency : Money → Money → Result (Unit {0})
same_currency m other = do
  fail_if (is_empty m.currency || is_empty other.currency) (money empty_currency)
  fail_if (not (str_eq m.currency other.currency)) (money currency_mismatch)

or_overflow : Bytes → Option ℤ → Result Money
or_overflow currency none = err (money overflow)
or_overflow currency (some n) = ok (record { minor_units = n; currency = currency })

unfoldable pub add : Money → Money → Result Money
unfolding same_currency or_overflow
add m other = do
  same_currency m other
  or_overflow m.currency (add_int64 m.minor_units other.minor_units)

unfoldable pub sub : Money → Money → Result Money
unfolding same_currency or_overflow
sub m other = do
  same_currency m other
  or_overflow m.currency (sub_int64 m.minor_units other.minor_units)

unfoldable pub negate : Money → Result Money
negate m = do
  fail_if (is_empty m.currency) (money empty_currency)
  fail_if (eqb_ℤ m.minor_units min_int64) (money overflow)
  ok (record m { minor_units = wrap64 (pos 0 -ℤ m.minor_units) })

unfoldable pub compare_money : Money → Money → Result ℤ
unfolding same_currency
compare_money m other = do
  same_currency m other
  ok (
      if ltb_ℤ m.minor_units other.minor_units
      then negsuc 0
      else if ltb_ℤ other.minor_units m.minor_units
      then pos 1
      else pos 0)

unfoldable pub equals : Money → Money → Bool
equals m other = eqb_ℤ m.minor_units other.minor_units && str_eq m.currency other.currency

unfoldable pub decimal_string : Money → Bytes
decimal_string m = print_minor_units m.minor_units

-- `moneyJSON`, the object that encoding/json writes and reads
pub record MoneyJson : Type 0 where
  pub amount : Bytes
  pub currency : Bytes

unfoldable pub marshal_json : Money → Result MoneyJson
marshal_json m = do
  fail_if (is_empty m.currency) (money empty_currency)
  ok (record { amount = decimal_string m; currency = m.currency })

-- `none` is a text that encoding/json refuses.
unfoldable pub unmarshal_json : Option MoneyJson → Result Money
unmarshal_json none = err (money invalid_format)
unmarshal_json (some raw) = from_decimal_string raw.amount raw.currency

-- a field of type `Money` in a JSON object: `none` where its key is missing, so that `UnmarshalJSON`
-- is not called
unfoldable pub money_of : Option (Option MoneyJson) → Result Money
money_of none = ok no_money
money_of (some raw) = unmarshal_json raw
