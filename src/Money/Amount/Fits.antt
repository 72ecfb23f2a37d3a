-- ===== src/Money/Amount/Fits.antt =====
-- What `parseDecimalToMinorUnits` of internal/domain/money/money.go returns is an int64.
use wager_ledger.Base.{ℕ, ℤ, wrap64-IsInt64, IsInt64, Bool, true, false, Bytes, ◌≡◌, arith}
use wager_ledger.Errors.{ok}
use wager_ledger.Money.Amount.{
  total_of, minor_units_of, parse_parts, parse_decimal_to_minor_units, split_sign, split_point,
}

total_of-IsInt64 : (negative : Bool) (i f : ℕ) → IsInt64 (total_of negative i f)
unfolding total_of
total_of-IsInt64 true i f = wrap64-IsInt64 _
total_of-IsInt64 false i f = wrap64-IsInt64 _

minor_units_of-IsInt64 :
    (negative : Bool) (i f : Bytes) {n : ℤ} → minor_units_of negative i f ≡ ok n → IsInt64 n
unfolding minor_units_of
minor_units_of-IsInt64 negative i f h = grind (arith, total_of-IsInt64)

parse_parts-IsInt64 :
    (negative : Bool) (i f : Bytes) {n : ℤ} → parse_parts negative (i, f) ≡ ok n → IsInt64 n
unfolding parse_parts
parse_parts-IsInt64 negative i f {n} h = ground (arith, minor_units_of-IsInt64 negative i f {n = n})

pub parse_decimal_to_minor_units-IsInt64 :
    (amount : Bytes) {n : ℤ} → parse_decimal_to_minor_units amount ≡ ok n → IsInt64 n
unfolding parse_decimal_to_minor_units
parse_decimal_to_minor_units-IsInt64 amount {n} h =
    let s = split_sign amount in
    let p = split_point s.1 in ground (arith, parse_parts-IsInt64 s.0 p.0 p.1 {n = n})
