-- ===== src/Money/Currency/Normal.antt =====
-- What `normalizeCurrency` returns (money.go).
use wager_ledger.Base.{
  ℕ, ◌≡◌, refl, sym, ap, ◌∙◌, Bool, true, false, not, ◌||◌, [], ◌∷◌, none, Bytes, length, is_empty,
  leb, ◌==◌, arith,
}
use wager_ledger.Errors.{money, invalid_currency, Result, ok, ◌>>◌, fail_if}
use wager_ledger.Money.Currency.{
  upper, upper_pair, to_upper, is_all_letters, has, iso4217_currencies, normalize_currency,
}

upper_pair-letter : (b c : ℕ) → leb b 127 ≡ true → upper_pair b c ≡ none
unfolding upper_pair
upper_pair-letter b c h = ground arith

to_upper-letters : (s : Bytes) → is_all_letters s ≡ true → to_upper s ≡ s
unfolding to_upper is_all_letters upper
to_upper-letters [] h = refl
to_upper-letters (b ∷ []) h = ground arith
to_upper-letters (b ∷ c ∷ s) h = ground (arith, upper_pair-letter b c, to_upper-letters (c ∷ s))

is_empty-length : (s : Bytes) → length s ≡ 3 → is_empty s ≡ false
is_empty-length [] h = absurd (omega (arith, h))
is_empty-length (b ∷ s) h = refl

-- The tests behind the upper case, on any table of codes.
abbrev checked : (Bytes → Bool) → Bytes → Result Bytes
checked known cur = do
  fail_if (not (length cur == 3) || not (is_all_letters cur)) (money invalid_currency)
  fail_if (not (known cur)) (money invalid_currency)
  ok cur

checked-parts :
    (known : Bytes → Bool) (c : Bytes) {cur : Bytes}
    → checked known c ≡ ok cur
    → (length cur ≡ 3) × (is_all_letters cur ≡ true) × (checked known cur ≡ ok cur)
checked-parts known c h = ground arith

normalize_currency-checked :
    (s : Bytes)
    → is_empty s ≡ false
    → normalize_currency s ≡ checked (has iso4217_currencies) (to_upper s)
unfolding normalize_currency
normalize_currency-checked s h = rw h refl

normalize_currency-some :
    (s : Bytes) {cur : Bytes} → normalize_currency s ≡ ok cur → is_empty s ≡ false
unfolding normalize_currency
normalize_currency-some [] h = absurd (cc)
normalize_currency-some (b ∷ s) h = refl

-- A currency that `normalizeCurrency` accepts becomes three letters from A to Z, and the code it
-- becomes is accepted as it stands.
pub normalize_currency-normal :
    (s cur : Bytes)
    → normalize_currency s ≡ ok cur
    → (length cur ≡ 3) × (is_all_letters cur ≡ true) × (normalize_currency cur ≡ ok cur)
normalize_currency-normal s cur h =
    let e = sym (normalize_currency-checked s (normalize_currency-some s h)) ∙ h in
    let p = checked-parts (has iso4217_currencies) (to_upper s) e in
    let again = normalize_currency-checked cur (is_empty-length cur p.0) in
    (p.0, p.1, again ∙ ap (checked (has iso4217_currencies)) (to_upper-letters cur p.1) ∙ p.2)
