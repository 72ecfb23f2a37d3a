-- ===== src/Publisher/Backoff.antt =====
-- The delay after a failed publication (publisher.go, `backoff`): the int64 arithmetic overflows for
-- many attempts, and the result is that of numbers without a bound all the same.
use wager_ledger.Base.{
  ℕ, zero, suc, ℤ, pos, ltb, wrap64, min_int64, max_int64, ◌+◌, ◌*◌, ◌^◌, ◌≤◌, ◌<◌, Bool, true,
  ◌&&◌, ◌≡◌, refl, subst, arith, ◌⊎◌, inl, inr, if◌then◌else◌, eqb_ℤ, eqb_ℤ-eq, Bool-cases,
}
use native.Mathlib.Nat.{pow-le-pow_right, two-pow-succ}
use wager_ledger.Usecase.Resume.{second}
use wager_ledger.Publisher.{max_backoff, duration_of_power, times_second, capped, backoff}

-- 2 ^ attempts seconds, and 5 minutes at most
abbrev pub exact_backoff : ℕ → ℕ
exact_backoff attempts =
    if ltb max_backoff (2 ^ attempts * second) then max_backoff else 2 ^ attempts * second

all_below : ℕ → (ℕ → Bool) → Bool
all_below zero p = true
all_below (suc n) p = all_below n p && p n

all_below-each : (n : ℕ) (p : ℕ → Bool) (k : ℕ) → all_below n p ≡ true → k < n → p k ≡ true
unfolding all_below
all_below-each zero p k h lt = absurd (omega (arith, lt))
all_below-each (suc n) p k h lt =
    let parts : (all_below n p ≡ true) × (p n ≡ true) = (ground (arith, h), ground (arith, h)) in
    elim (Bool-cases (ltb k n)) [
      | inl e ↦ all_below-each n p k parts.0 (ground (arith, e))
      | inr e ↦ let last : n ≡ k = ground (arith, e, lt) in subst (λ j. p j ≡ true) last parts.1
    ]

large_power : (n : ℕ) → 9 ≤ n → 512 ≤ 2 ^ n
large_power n h = pow-le-pow_right {n = 2} (omega arith) h

module _ (out_of_range : ℤ) where
  exact_at : ℕ → Bool
  unfolding backoff duration_of_power times_second capped wrap64
  exact_at n = eqb_ℤ (backoff out_of_range n) (pos (exact_backoff n))

  exact_near : all_below 63 exact_at ≡ true
  unfolding exact_at all_below
  exact_near = refl

  out_of_range-capped :
      (out_of_range ≡ min_int64) ⊎ (out_of_range ≡ max_int64)
      → capped (wrap64 (times_second out_of_range)) ≡ pos max_backoff
  unfolding times_second capped wrap64
  out_of_range-capped (inl e) = rw e refl
  out_of_range-capped (inr e) = rw e refl

  -- For every number of attempts the delay is 2 ^ attempts seconds or, where this is more, 5 minutes: no
  -- overflow of int64 shows in it, provided that a float64 out of the range is converted to the least or
  -- to the largest int64.
  pub backoff_exact :
      (attempts : ℕ)
      → (out_of_range ≡ min_int64) ⊎ (out_of_range ≡ max_int64)
      → backoff out_of_range attempts ≡ pos (exact_backoff attempts)
  unfolding backoff duration_of_power exact_at
  backoff_exact n converted = elim (Bool-cases (ltb n 63)) [
    | inl e ↦ eqb_ℤ-eq _ _ (all_below-each 63 exact_at n exact_near (ground (arith, e)))
    | inr e ↦
        let large = large_power n (ground (arith, e)) in
        let above : ltb max_backoff (2 ^ n * second) ≡ true = ground (arith, large) in
        rw (e, above) (out_of_range-capped converted)
  ]

-- The delay lies between 1 second and 5 minutes, and does not fall from one attempt to the next.
pub exact_backoff_bounds :
    (attempts : ℕ)
    → (second ≤ exact_backoff attempts)
      × (exact_backoff attempts ≤ 300 * second)
      × (exact_backoff attempts ≤ exact_backoff (attempts + 1))
exact_backoff_bounds n =
    let positive : 1 ≤ 2 ^ n = pow-le-pow_right {n = 2} (omega arith) {i = 0} (omega arith) in
    let doubled = two-pow-succ n in
    (ground (arith, positive), ground (arith, positive), ground (arith, positive, doubled))
