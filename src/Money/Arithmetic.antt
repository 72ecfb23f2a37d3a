-- ===== src/Money/Arithmetic.antt =====
-- The int64 arithmetic of money is exact or refuses: `Add`, `Sub`, `Negate`, `Compare`, `Equals`.
use wager_ledger.Base.{
  ℤ, pos, negsuc, ◌+ℤ◌, ◌-ℤ◌, ltb_ℤ, wrap64, IsInt64, min_int64, max_int64, Bool, true, false, not,
  ◌&&◌, none, some, is_empty, str_eq, if◌then◌else◌, ◌≡◌, ◌↔◌, ◌∙◌, arith, int_laws, str_eq_refl,
}
use wager_ledger.Errors.{overflow, money, ok, err}
use wager_ledger.Money.{Money, add, sub, compare_money, equals, add_int64, sub_int64}

abbrev pub fits_int64 : ℤ → Bool
fits_int64 a = not (ltb_ℤ a min_int64) && not (ltb_ℤ max_int64 a)

pub add_int64_exact :
    (a b : ℤ)
    → IsInt64 a
    → IsInt64 b
    → add_int64 a b ≡ (if fits_int64 (a +ℤ b) then some (a +ℤ b) else none)
unfolding add_int64 wrap64 ◌+ℤ◌
add_int64_exact (pos a) (pos b) ha hb = ground arith
add_int64_exact (pos a) (negsuc b) ha hb = ground arith
add_int64_exact (negsuc a) (pos b) ha hb = ground arith
add_int64_exact (negsuc a) (negsuc b) ha hb = ground arith

pub sub_int64_exact :
    (a b : ℤ)
    → IsInt64 a
    → IsInt64 b
    → sub_int64 a b ≡ (if fits_int64 (a -ℤ b) then some (a -ℤ b) else none)
unfolding sub_int64 wrap64 ◌-ℤ◌
sub_int64_exact (pos a) (pos b) ha hb = ground arith
sub_int64_exact (pos a) (negsuc b) ha hb = ground arith
sub_int64_exact (negsuc a) (pos b) ha hb = ground arith
sub_int64_exact (negsuc a) (negsuc b) ha hb = ground arith

-- Two amounts of one currency, whose minor units are int64.
pub record Alike (m n : Money) : Type 0 where
  pub has_currency : is_empty m.currency ≡ false
  pub one_currency : m.currency ≡ n.currency
  pub left_fits : IsInt64 m.minor_units
  pub right_fits : IsInt64 n.minor_units

Alike-tests :
    (m n : Money)
    → Alike m n
    → (is_empty n.currency ≡ false) × (str_eq m.currency n.currency ≡ true)
Alike-tests m n h =
    (rw (← h.one_currency) h.has_currency, rw h.one_currency (str_eq_refl n.currency))

-- Adding int64 amounts of one currency, which is not empty, gives the true sum where it is an
-- int64, and the error overflow where it is not; so does the difference.
pub add-sub_exact :
    (m n : Money)
    → Alike m n
    → (add m n ≡ (
        if fits_int64 (m.minor_units +ℤ n.minor_units)
        then ok (record m { minor_units = m.minor_units +ℤ n.minor_units })
        else err (money overflow)))
      × (sub m n ≡ (
          if fits_int64 (m.minor_units -ℤ n.minor_units)
          then ok (record m { minor_units = m.minor_units -ℤ n.minor_units })
          else err (money overflow)))
unfolding add sub
add-sub_exact m n h =
    let a = m.minor_units in
    let b = n.minor_units in
    let t = Alike-tests m n h in
    (
      ground (arith, h.has_currency, t.0, t.1, add_int64_exact a b h.left_fits h.right_fits),
      ground (arith, h.has_currency, t.0, t.1, sub_int64_exact a b h.left_fits h.right_fits),
    )

pub add-ok :
    (m n : Money) {s : Money}
    → Alike m n
    → add m n ≡ ok s
    → (s.minor_units ≡ m.minor_units +ℤ n.minor_units)
      × (s.currency ≡ m.currency)
      × IsInt64 s.minor_units
add-ok m n h e = ground (arith, (add-sub_exact m n h).0)

pub sub-ok :
    (m n : Money) {s : Money}
    → Alike m n
    → sub m n ≡ ok s
    → (s.minor_units ≡ m.minor_units -ℤ n.minor_units)
      × (s.currency ≡ m.currency)
      × IsInt64 s.minor_units
sub-ok m n h e = ground (arith, (add-sub_exact m n h).1)

-- For int64 amounts of one currency, which is not empty, if `Add` succeeds, `Sub` of the same
-- amount from the sum gives the first amount back.
pub sub-add : (m n s : Money) → Alike m n → add m n ≡ ok s → sub s n ≡ ok m
sub-add m n s h e =
    let t = add-ok m n h e in
    let t' : Alike s n = record {
      has_currency = rw t.1 h.has_currency;
      one_currency = t.1 ∙ h.one_currency;
      left_fits = t.2;
      right_fits = h.right_fits;
    } in
    let back : s.minor_units -ℤ n.minor_units ≡ m.minor_units = rw t.0 (omega int_laws) in
    ground (arith, (add-sub_exact s n t').1, back, t.1, h.left_fits)

-- Comparing two int64 amounts of one currency, which is not empty, gives 0 exactly when they are
-- equal, and the opposite answer when they are swapped.
pub compare_laws :
    (m n : Money)
    → Alike m n
    → ((compare_money m n ≡ ok (pos 0)) ↔ (equals m n ≡ true))
      × ((r : ℤ) → compare_money m n ≡ ok r → compare_money n m ≡ ok (pos 0 -ℤ r))
unfolding compare_money equals ◌-ℤ◌
compare_laws m n h =
    let t = Alike-tests m n h in
    (
      (ground (arith, h.has_currency, t.0, t.1), ground (arith, h.has_currency, t.0, t.1)),
      λ r e. ground (arith, h.has_currency, t.0, t.1, str_eq_refl n.currency, h.one_currency),
    )
