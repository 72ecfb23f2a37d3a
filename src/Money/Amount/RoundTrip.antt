-- ===== src/Money/Amount/RoundTrip.antt =====
-- The print of an amount is read back (money.go, `DecimalString` and `parseDecimalToMinorUnits`).
use mathlib.Core.List.{reverse, reverse_aux, reverse-reverse}
use wager_ledger.Base.{
  ℕ, zero, suc, ◌+◌, ◌-◌, ◌*◌, ◌/◌, ◌%◌, ◌^◌, ◌≤◌, ◌<◌, ◌≡◌, refl, ◌∙◌, Bool, true, false, [], ◌∷◌,
  ◌++◌, some, Bytes, length, is_empty, str_eq_refl, ltb, All, All-append, Bool-cases, inl, inr,
  if◌then◌else◌, arith, ℤ, pos, negsuc, ◌-ℤ◌, ◌≤ℤ◌, wrap64, max_int64,
}
use wager_ledger.Errors.{ok}
use wager_ledger.Money.Amount.{
  is_space, trim_left, trim_space, lower, to_lower, is_einf, contains_einf, is_digit, is_all_digits,
  split_sign, split_point, value, parse_int, pad_frac, total_of, minor_units_of, parse_parts,
  parse_decimal_to_minor_units, print_digits, print_nat, print_two, print_minor_units,
}

abbrev IsDigit : ℕ → Type 0
IsDigit b = (48 ≤ b) × (b ≤ 57)

-- a digit, a sign or a point
abbrev IsPlain : ℕ → Type 0
IsPlain b = (43 ≤ b) × (b ≤ 57)

All-IsPlain : (s : Bytes) → All IsDigit s → All IsPlain s
All-IsPlain [] h = tt
All-IsPlain (b ∷ s) h = ((omega (arith, h.0.0), h.0.1), All-IsPlain s h.1)

to_lower-plain : (s : Bytes) → All IsPlain s → to_lower s ≡ s
unfolding to_lower lower
to_lower-plain [] h = refl
to_lower-plain (b ∷ s) h = ground (arith, to_lower-plain s h.1)

contains_einf-plain : (s : Bytes) → All IsPlain s → contains_einf s ≡ false
unfolding contains_einf is_einf
contains_einf-plain [] h = refl
contains_einf-plain (b ∷ s) h = ground (arith, contains_einf-plain s h.1)

trim_left-plain : (s : Bytes) → All IsPlain s → trim_left s ≡ s
unfolding trim_left is_space
trim_left-plain [] h = refl
trim_left-plain (b ∷ s) h = ground arith

All-reverse_aux : (s t : Bytes) → All IsPlain s → All IsPlain t → All IsPlain (reverse_aux s t)
All-reverse_aux [] t h k = k
All-reverse_aux (b ∷ s) t h k = All-reverse_aux s (b ∷ t) h.1 (h.0, k)

trim_space-plain : (s : Bytes) → All IsPlain s → trim_space s ≡ s
unfolding trim_space
trim_space-plain s h =
    rw (trim_left-plain s h, trim_left-plain (reverse s) (All-reverse_aux s [] h tt))
      (reverse-reverse s)

split_point-digits : (s t : Bytes) → All IsDigit s → split_point (s ++ b'.' ∷ t) ≡ (s, t)
unfolding split_point
split_point-digits [] t h = refl
split_point-digits (b ∷ s) t h = ground (arith, split_point-digits s t h.1)

is_all_digits-All : (s : Bytes) → All IsDigit s → is_all_digits s ≡ true
unfolding is_all_digits is_digit
is_all_digits-All [] h = refl
is_all_digits-All (b ∷ s) h = ground (arith, is_all_digits-All s h.1)

value-append : (n : ℕ) (s : Bytes) (c : ℕ) → value n (s ++ c ∷ []) ≡ value n s * 10 + (c - b'0')
unfolding value
value-append n [] c = refl
value-append n (b ∷ s) c = value-append (n * 10 + (b - b'0')) s c

value-print_digits : (fuel n : ℕ) → n < fuel → value 0 (print_digits fuel n) ≡ n
unfolding print_digits value
value-print_digits zero n h = absurd (omega arith)
value-print_digits (suc fuel) n h = ground (
  arith,
  value-append 0 (print_digits fuel (n / 10)) (b'0' + n % 10),
  value-print_digits fuel (n / 10),
)

print_digits-All : (fuel n : ℕ) → All IsDigit (print_digits fuel n)
unfolding print_digits
print_digits-All zero n = tt
print_digits-All (suc fuel) n = elim (Bool-cases (ltb n 10)) [
  | inl small ↦ rw small (ground arith)
  | inr large ↦ rw large (
      All-append IsDigit (print_digits fuel (n / 10)) ((b'0' + n % 10) ∷ [])
        (print_digits-All fuel (n / 10)) (ground arith))
]

is_empty-append : (s : Bytes) (c : ℕ) (t : Bytes) → is_empty (s ++ c ∷ t) ≡ false
is_empty-append [] c t = refl
is_empty-append (b ∷ s) c t = refl

print_digits-some : (fuel n : ℕ) → is_empty (print_digits (suc fuel) n) ≡ false
unfolding print_digits
print_digits-some fuel n =
    ground (arith, is_empty-append (print_digits fuel (n / 10)) (b'0' + n % 10) [])

parse_int-print_nat : (n : ℕ) → n ≤ 2 ^ 63 - 1 → parse_int (print_nat n) ≡ some n
unfolding parse_int print_nat
parse_int-print_nat n h =
    ground (arith, print_digits-some n n, value-print_digits (suc n) n (omega arith))

print_two-All : (n : ℕ) → n < 100 → All IsDigit (print_two n)
unfolding print_two
print_two-All n h = ground arith

parse_int-print_two : (n : ℕ) → n < 100 → parse_int (pad_frac 2 (print_two n)) ≡ some n
unfolding parse_int pad_frac print_two value
parse_int-print_two n h = ground arith

-- the text behind the sign
abbrev unsigned : ℕ → Bytes
unsigned n = print_nat (n / 100) ++ b'.' ∷ print_two (n % 100)

abbrev signed : Bool → ℕ → ℤ
signed negative n = if negative then pos 0 -ℤ pos n else pos n

total_of-exact :
    (negative : Bool) (n : ℕ)
    → n ≤ 2 ^ 63 - 1
    → total_of negative (n / 100) (n % 100) ≡ signed negative n
unfolding total_of wrap64 ◌-ℤ◌
total_of-exact true n h = ground arith
total_of-exact false n h = ground arith

minor_units_of-print :
    (negative : Bool) (n : ℕ)
    → n ≤ 2 ^ 63 - 1
    → minor_units_of negative (print_nat (n / 100)) (print_two (n % 100)) ≡ ok (signed negative n)
unfolding minor_units_of
minor_units_of-print negative n h =
    rw
      (
        parse_int-print_nat (n / 100) (omega arith),
        parse_int-print_two (n % 100) (omega arith),
        total_of-exact negative n h,
      )
      (ground arith)

print_nat-All : (n : ℕ) → All IsDigit (print_nat n)
unfolding print_nat
print_nat-All n = print_digits-All (suc n) n

print_nat-some : (n : ℕ) → is_empty (print_nat n) ≡ false
unfolding print_nat
print_nat-some n = print_digits-some n n

print_two-form : (n : ℕ) → (is_empty (print_two n) ≡ false) × (length (print_two n) ≡ 2)
unfolding print_two
print_two-form n = (refl, refl)

parse_parts-forms :
    (negative : Bool) (int_part frac_part : Bytes)
    → is_empty int_part ≡ false
    → is_all_digits int_part ≡ true
    → is_empty frac_part ≡ false
    → is_all_digits frac_part ≡ true
    → length frac_part ≡ 2
    → parse_parts negative (int_part, frac_part) ≡ minor_units_of negative int_part frac_part
unfolding parse_parts
parse_parts-forms negative int_part frac_part h1 h2 h3 h4 h5 = rw (h1, h2, h3, h4, h5) refl

parse_parts-print :
    (negative : Bool) (n : ℕ)
    → n ≤ 2 ^ 63 - 1
    → parse_parts negative (split_point (unsigned n)) ≡ ok (signed negative n)
parse_parts-print negative n h =
    rw (split_point-digits (print_nat (n / 100)) (print_two (n % 100)) (print_nat-All (n / 100))) (
      parse_parts-forms negative (print_nat (n / 100)) (print_two (n % 100))
        (print_nat-some (n / 100))
        (is_all_digits-All (print_nat (n / 100)) (print_nat-All (n / 100)))
        (print_two-form (n % 100)).0
        (is_all_digits-All (print_two (n % 100)) (print_two-All (n % 100) (omega arith)))
        (print_two-form (n % 100)).1
      ∙ minor_units_of-print negative n h)

unsigned-All : (n : ℕ) → All IsPlain (unsigned n)
unsigned-All n =
    All-append IsPlain (print_nat (n / 100)) (b'.' ∷ print_two (n % 100))
      (All-IsPlain (print_nat (n / 100)) (print_nat-All (n / 100)))
      (ground arith, All-IsPlain (print_two (n % 100)) (print_two-All (n % 100) (omega arith)))

split_sign-digits :
    (s t : Bytes) → All IsDigit s → is_empty s ≡ false → split_sign (s ++ t) ≡ (false, s ++ t)
unfolding split_sign
split_sign-digits [] t h e = absurd (cc)
split_sign-digits (b ∷ s) t h e = ground arith

-- The tests of form pass a plain text on to its parts.
parse-plain :
    (s : Bytes) (negative : Bool) (rest : Bytes)
    → All IsPlain s
    → is_empty s ≡ false
    → split_sign s ≡ (negative, rest)
    → is_empty rest ≡ false
    → parse_decimal_to_minor_units s ≡ parse_parts negative (split_point rest)
unfolding parse_decimal_to_minor_units
parse-plain s negative rest plain some_text split more = rw (
  some_text,
  trim_space-plain s plain,
  to_lower-plain s plain,
  str_eq_refl s,
  contains_einf-plain s plain,
  split,
  more,
)

unsigned-some : (n : ℕ) → is_empty (unsigned n) ≡ false
unsigned-some n = is_empty-append (print_nat (n / 100)) b'.' (print_two (n % 100))

print-pos : (n : ℕ) → n ≤ 2 ^ 63 - 1 → print_minor_units (pos n) ≡ unsigned n
unfolding print_minor_units
print-pos n h = let e : n % 2 ^ 64 ≡ n = omega arith in rw e refl

print-negsuc : (n : ℕ) → n + 1 ≤ 2 ^ 63 - 1 → print_minor_units (negsuc n) ≡ b'-' ∷ unsigned (n + 1)
unfolding print_minor_units
print-negsuc n h = let e : (n + 1) % 2 ^ 64 ≡ n + 1 = omega arith in rw e refl

split_sign-minus : (s : Bytes) → split_sign (b'-' ∷ s) ≡ (true, s)
unfolding split_sign
split_sign-minus s = refl

-- The decimal print of every int64 but the least is read back as that number of minor units.
pub parse-print :
    (m : ℤ)
    → pos 0 -ℤ max_int64 ≤ℤ m
    → m ≤ℤ max_int64
    → parse_decimal_to_minor_units (print_minor_units m) ≡ ok m
unfolding ◌-ℤ◌
parse-print (pos n) lo hi =
    let fits : n ≤ 2 ^ 63 - 1 = omega arith in
    let split =
      split_sign-digits (print_nat (n / 100)) (b'.' ∷ print_two (n % 100)) (print_nat-All (n / 100))
        (print_nat-some (n / 100)) in
    rw (print-pos n fits) (
      parse-plain (unsigned n) false (unsigned n) (unsigned-All n) (unsigned-some n) split
        (unsigned-some n)
      ∙ parse_parts-print false n fits)
parse-print (negsuc n) lo hi =
    let fits : n + 1 ≤ 2 ^ 63 - 1 = omega arith in
    let s = unsigned (n + 1) in
    rw (print-negsuc n fits) (
      parse-plain (b'-' ∷ s) true s (ground arith, unsigned-All (n + 1)) refl (split_sign-minus s)
        (unsigned-some (n + 1))
      ∙ parse_parts-print true (n + 1) fits
      ∙ ground arith)
