-- ===== src/Money/Amount.antt =====
-- internal/domain/money/money.go: `parseDecimalToMinorUnits`, and the print of `DecimalString`.
pub mod RoundTrip
pub mod Fits
use mathlib.Core.List.{reverse}
use wager_ledger.Base.{
  ℕ, zero, suc, ◌+◌, ◌-◌, ◌*◌, ◌/◌, ◌%◌, ◌^◌, ◌≤◌, ◌<◌, ◌≡◌, refl, Bool, true, false, not, ◌&&◌,
  ◌||◌, List, [], ◌∷◌, ◌++◌, Option, none, some, Bytes, codes, length, is_empty, str_eq, leb, ltb,
  ◌==◌, if◌then◌else◌, arith, ℤ, pos, negsuc, ◌-ℤ◌, wrap64,
}
use wager_ledger.Errors.{
  MoneyError, empty_amount, invalid_format, excessive_scale, overflow, Error, money, Result, ok,
  err, ◌>>=◌, ◌>>◌, fail_if,
}

-- ASCII white space. On other bytes the white space and the cases of Unicode need no model: such a
-- text is refused with the same error further down, since it is no sequence of digits.
unfoldable is_space : ℕ → Bool
is_space b = b == 32 || (leb 9 b && leb b 13)

unfoldable trim_left : Bytes → Bytes
trim_left [] = []
trim_left (b ∷ s) = elim (is_space b) [ true ↦ trim_left s | false ↦ b ∷ s ]

-- `strings.TrimSpace`
unfoldable trim_space : Bytes → Bytes
unfolding trim_left is_space
trim_space s = reverse (trim_left (reverse (trim_left s)))

unfoldable lower : ℕ → ℕ
lower b = if leb b'A' b && leb b b'Z' then b + 32 else b

-- `strings.ToLower`
unfoldable to_lower : Bytes → Bytes
unfolding lower
to_lower [] = []
to_lower (b ∷ s) = lower b ∷ to_lower s

-- a byte of "einf"
unfoldable is_einf : ℕ → Bool
is_einf b = b == b'e' || b == b'i' || b == b'n' || b == b'f'

-- `strings.ContainsAny(s, "einf")`
unfoldable contains_einf : Bytes → Bool
unfolding is_einf
contains_einf [] = false
contains_einf (b ∷ s) = is_einf b || contains_einf s

unfoldable is_digit : ℕ → Bool
is_digit r = not (ltb r b'0' || ltb b'9' r)

unfoldable pub is_all_digits : Bytes → Bool
unfolding is_digit
is_all_digits [] = true
is_all_digits (r ∷ s) = is_digit r && is_all_digits s

-- the sign and the rest
unfoldable split_sign : Bytes → Bool × Bytes
split_sign [] = (false, [])
split_sign (b ∷ s) =
    if b == b'-' then (true, s) else if b == b'+' then (false, s) else (false, b ∷ s)

-- `strings.SplitN(rest, ".", 2)`: the part before the first point, and the part behind it, which is
-- empty where there is no point.
unfoldable split_point : Bytes → Bytes × Bytes
split_point [] = ([], [])
split_point (b ∷ s) = elim (b == b'.') [
  | true ↦ ([], s)
  | false ↦ let (i, f) = split_point s in (b ∷ i, f)
]

-- the number that digits spell behind `n`
unfoldable pub value : ℕ → Bytes → ℕ
value n [] = n
value n (c ∷ s) = value (n * 10 + (c - b'0')) s

-- `strconv.ParseInt(s, 10, 64)` on a text of digits alone: it fails on an empty text and above the
-- largest int64.
unfoldable parse_int : Bytes → Option ℕ
unfolding value
parse_int [] = none
parse_int (c ∷ s) = if leb (value 0 (c ∷ s)) (2 ^ 63 - 1) then some (value 0 (c ∷ s)) else none

-- `for len(fracPart) < 2 { fracPart += "0" }`, on the rounds left.
unfoldable pad_frac : ℕ → Bytes → Bytes
pad_frac zero frac_part = frac_part
pad_frac (suc rounds) frac_part =
    let longer = pad_frac rounds (frac_part ++ b'0' ∷ []) in
    if ltb (length frac_part) 2 then longer else frac_part

abbrev or_fail {ℓ} : {A : Type ℓ} → Option A → Error → Result A
or_fail none e = err e
or_fail (some a) e = ok a

-- `total := intValue*100 + fracValue; if negative { total = -total }`, in int64
unfoldable total_of : Bool → ℕ → ℕ → ℤ
total_of negative int_value frac_value =
    let total = wrap64 (pos (int_value * 100 + frac_value)) in
    if negative then wrap64 (pos 0 -ℤ total) else total

-- The parts of an amount that passed the tests of form, as minor units.
unfoldable minor_units_of : Bool → Bytes → Bytes → Result ℤ
unfolding parse_int pad_frac total_of
minor_units_of negative int_part frac_part = do
  int_value ← or_fail (parse_int int_part) (money overflow)
  frac_value ← or_fail (parse_int (pad_frac 2 frac_part)) (money invalid_format)
  fail_if (ltb ((2 ^ 63 - 1 - frac_value) / 100) int_value) (money overflow)
  ok (total_of negative int_value frac_value)

-- The amount behind its sign.
unfoldable parse_parts : Bool → Bytes × Bytes → Result ℤ
unfolding minor_units_of is_all_digits
parse_parts negative (int_part, frac_part) = do
  fail_if (is_empty int_part) (money invalid_format)
  fail_if (not (is_all_digits int_part)) (money invalid_format)
  fail_if (not (is_empty frac_part) && not (is_all_digits frac_part)) (money invalid_format)
  fail_if (ltb 2 (length frac_part)) (money excessive_scale)
  minor_units_of negative int_part frac_part

unfoldable pub parse_decimal_to_minor_units : Bytes → Result ℤ
unfolding trim_space to_lower contains_einf split_sign split_point parse_parts
parse_decimal_to_minor_units amount = do
  fail_if (is_empty amount) (money empty_amount)
  let lowered = to_lower (trim_space amount)
  fail_if (not (str_eq lowered amount)) (money invalid_format)
  fail_if (contains_einf lowered) (money invalid_format)
  let (negative, rest) = split_sign amount
  fail_if (is_empty rest) (money invalid_format)
  parse_parts negative (split_point rest)

-- `%d`: the digits of `n`, on as much fuel as there are digits at least.
unfoldable print_digits : ℕ → ℕ → Bytes
print_digits zero n = []
print_digits (suc fuel) n =
    let before = print_digits fuel (n / 10) in
    if ltb n 10 then (b'0' + n) ∷ [] else before ++ (b'0' + n % 10) ∷ []

unfoldable pub print_nat : ℕ → Bytes
unfolding print_digits
print_nat n = print_digits (suc n) n

-- `%02d`, of a number below 100
unfoldable pub print_two : ℕ → Bytes
print_two n = (b'0' + n / 10) ∷ (b'0' + n % 10) ∷ []

-- `uint64(m)`, or `uint64(-(m + 1)) + 1` for a negative `m`
unfoldable abs_uint64 : ℤ → ℕ
abs_uint64 (pos n) = n % 2 ^ 64
abs_uint64 (negsuc n) = (n + 1) % 2 ^ 64

abbrev sign_of : ℤ → Bytes
sign_of (pos n) = []
sign_of (negsuc n) = b'-' ∷ []

unfoldable pub print_minor_units : ℤ → Bytes
unfolding abs_uint64 print_nat print_two
print_minor_units m =
    sign_of m ++ (print_nat (abs_uint64 m / 100) ++ b'.' ∷ print_two (abs_uint64 m % 100))
