-- ===== src/Money/Json.antt =====
-- Money in JSON and from text (money.go, `MarshalJSON`, `UnmarshalJSON`, `FromDecimalString`).
use wager_ledger.Base.{
  pos, ◌≤ℤ◌, int_laws, IsInt64, max_int64, false, is_empty, Option, none, some, ◌≡◌, refl, arith,
}
use wager_ledger.Errors.{ok, ok-injective}
use wager_ledger.Money.{
  Money, MoneyJson, normalize_currency, decimal_string, from_decimal_string, marshal_json,
  unmarshal_json, money_of,
}
use wager_ledger.Money.Amount.RoundTrip.{parse-print}
use wager_ledger.Money.Amount.Fits.{parse_decimal_to_minor_units-IsInt64}

-- What `FromDecimalString` builds: an amount from 0 to the largest int64, with a normal currency.
pub record IsStored (m : Money) : Type 0 where
  pub nonneg : pos 0 ≤ℤ m.minor_units
  pub fits : m.minor_units ≤ℤ max_int64
  pub normal : normalize_currency m.currency ≡ ok m.currency
  pub has_currency : is_empty m.currency ≡ false

-- An amount from 0 to the largest int64 in a normal currency is written as JSON, and the object
-- that is written is read back as that amount.
pub unmarshal-marshal :
    (m : Money)
    → IsStored m
    → (j : MoneyJson) × (marshal_json m ≡ ok j) × (unmarshal_json (some j) ≡ ok m)
unfolding marshal_json unmarshal_json from_decimal_string decimal_string
unmarshal-marshal m s =
    let j : MoneyJson = record { amount = decimal_string m; currency = m.currency } in
    let read = parse-print m.minor_units (omega (int_laws, s.nonneg)) s.fits in
    (j, rw s.has_currency refl, rw (s.normal, read) (ground (arith, s.nonneg)))

-- An amount that is read from JSON is an int64.
pub unmarshal_json-IsInt64 :
    (o : Option MoneyJson) {m : Money} → unmarshal_json o ≡ ok m → IsInt64 m.minor_units
unfolding unmarshal_json from_decimal_string
unmarshal_json-IsInt64 none h = cc
unmarshal_json-IsInt64 (some raw) {m} h =
    ground (arith, parse_decimal_to_minor_units-IsInt64 raw.amount {n = m.minor_units})

pub money_of-IsInt64 :
    (o : Option (Option MoneyJson)) {amount : Money}
    → money_of o ≡ ok amount
    → IsInt64 amount.minor_units
unfolding money_of
money_of-IsInt64 none h = rw (← ok-injective h) (omega arith, omega arith)
money_of-IsInt64 (some raw) h = unmarshal_json-IsInt64 raw h
