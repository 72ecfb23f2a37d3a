-- ===== src/Wallet/Moves.antt =====
-- What the wallet guarantees of every movement: exact amounts, a balance that is never negative and
-- never above the largest int64, a version that counts, and errors that change nothing.
use wager_ledger.Base.{
  ℤ, pos, ◌+ℤ◌, ◌-ℤ◌, ◌≤ℤ◌, ◌<ℤ◌, max_int64, ◌≡◌, refl, arith, int_laws, sym, str_eq_sound,
}
use wager_ledger.Errors.{Error, Result, ok, err}
use wager_ledger.Money.{Money, is_negative, is_zero}
use wager_ledger.Wallet.{Wallet, Time, currency, debit, credit}
use wager_ledger.Wallet.Exact.{IsValid, IsAmount, after, debit_exact, credit_exact}

debit_ok-IsAmount :
    (w : Wallet) (amount : Money) (now : Time)
    → amount.minor_units ≤ℤ max_int64
    → (debit w amount now).1 ≡ ok tt
    → IsAmount w amount
unfolding debit is_negative is_zero
debit_ok-IsAmount w amount now fits e = record {
  positive = ground arith;
  fits = fits;
  one_currency = sym (str_eq_sound amount.currency (currency w) (ground arith));
}

credit_ok-IsAmount :
    (w : Wallet) (amount : Money) (now : Time)
    → amount.minor_units ≤ℤ max_int64
    → (credit w amount now).1 ≡ ok tt
    → IsAmount w amount
unfolding credit is_negative is_zero
credit_ok-IsAmount w amount now fits e = record {
  positive = ground arith;
  fits = fits;
  one_currency = sym (str_eq_sound amount.currency (currency w) (ground arith));
}

-- What a movement of an int64 amount has done to a valid wallet, by how it ended.
abbrev pub Moved : Wallet → Money → (ℤ → ℤ → ℤ) → Time → Wallet × Result (Unit {0}) → Type 0
Moved w amount op now (w', ok u) =
    IsAmount w amount
    × IsValid w'
    × (w' ≡ after w (op w.balance.minor_units amount.minor_units) now)
Moved w amount op now (w', err e) = w' ≡ w

Moved-intro :
    (w : Wallet) (amount : Money) (op : ℤ → ℤ → ℤ) (now : Time) (p : Wallet × Result (Unit {0}))
    → (p.1 ≡ ok tt
        → IsAmount w amount
          × IsValid p.0
          × (p.0 ≡ after w (op w.balance.minor_units amount.minor_units) now))
    → ((e : Error) → p.1 ≡ err e → p.0 ≡ w)
    → Moved w amount op now p
Moved-intro w amount op now (w', ok u) done failed = done refl
Moved-intro w amount op now (w', err e) done failed = failed e refl

after-IsValid :
    (w : Wallet) (n : ℤ) (now : Time)
    → IsValid w
    → w.version <ℤ max_int64
    → pos 0 ≤ℤ n
    → n ≤ℤ max_int64
    → IsValid (after w n now)
after-IsValid w n now v room lo hi = record {
  has_id = v.has_id;
  has_player = v.has_player;
  has_currency = v.has_currency;
  balance_nonneg = lo;
  balance_fits = hi;
  version_positive = omega (int_laws, v.version_positive);
  version_fits = omega int_laws;
}

-- A movement that returns an error leaves the wallet as it was, whatever wallet and amount.
pub movement_error_unchanged :
    (w : Wallet) (amount : Money) (now : Time) (e : Error)
    → ((debit w amount now).1 ≡ err e → (debit w amount now).0 ≡ w)
      × ((credit w amount now).1 ≡ err e → (credit w amount now).0 ≡ w)
unfolding debit credit
movement_error_unchanged w amount now e = (ground arith, ground arith)

debited :
    (w : Wallet) (amount : Money) (now : Time)
    → IsValid w
    → w.version <ℤ max_int64
    → IsAmount w amount
    → (debit w amount now).1 ≡ ok tt
    → (amount.minor_units ≤ℤ w.balance.minor_units)
      × ((debit w amount now).0 ≡ after w (w.balance.minor_units -ℤ amount.minor_units) now)
debited w amount now v room a e = (
  ground (arith, debit_exact w amount now v room a),
  ground (arith, debit_exact w amount now v room a),
)

credited :
    (w : Wallet) (amount : Money) (now : Time)
    → IsValid w
    → w.version <ℤ max_int64
    → IsAmount w amount
    → (credit w amount now).1 ≡ ok tt
    → (w.balance.minor_units +ℤ amount.minor_units ≤ℤ max_int64)
      × ((credit w amount now).0 ≡ after w (w.balance.minor_units +ℤ amount.minor_units) now)
credited w amount now v room a e = (
  ground (arith, credit_exact w amount now v room a),
  ground (arith, credit_exact w amount now v room a),
)

-- A debit of any amount up to the largest int64, from a valid wallet whose version can still grow,
-- either fails and leaves the wallet as it was, or the amount was positive and in the wallet's
-- currency, exactly it was taken, and the wallet is valid again: no balance below zero.
pub debit-Moved :
    (w : Wallet) (amount : Money) (now : Time)
    → IsValid w
    → w.version <ℤ max_int64
    → amount.minor_units ≤ℤ max_int64
    → Moved w amount ◌-ℤ◌ now (debit w amount now)
debit-Moved w amount now v room fits =
    Moved-intro w amount ◌-ℤ◌ now (debit w amount now)
      (λ e.
        let a = debit_ok-IsAmount w amount now fits e in
        let d = debited w amount now v room a e in
        let left = w.balance.minor_units -ℤ amount.minor_units in
        let n_lo : pos 0 ≤ℤ left = omega (int_laws, d.0) in
        let n_hi : left ≤ℤ max_int64 = omega (int_laws, v.balance_fits, a.positive) in
        (a, rw d.1 (after-IsValid w left now v room n_lo n_hi), d.1))
      (λ e h. (movement_error_unchanged w amount now e).0 h)

-- A credit of any amount up to the largest int64, to a valid wallet whose version can still grow,
-- either fails and leaves the wallet as it was, or the amount was positive and in the wallet's
-- currency, exactly it was given, and the wallet is valid again: no balance above the largest int64.
pub credit-Moved :
    (w : Wallet) (amount : Money) (now : Time)
    → IsValid w
    → w.version <ℤ max_int64
    → amount.minor_units ≤ℤ max_int64
    → Moved w amount ◌+ℤ◌ now (credit w amount now)
credit-Moved w amount now v room fits =
    Moved-intro w amount ◌+ℤ◌ now (credit w amount now)
      (λ e.
        let a = credit_ok-IsAmount w amount now fits e in
        let d = credited w amount now v room a e in
        let left = w.balance.minor_units +ℤ amount.minor_units in
        let n_lo : pos 0 ≤ℤ left = omega (int_laws, v.balance_nonneg, a.positive) in
        (a, rw d.1 (after-IsValid w left now v room n_lo d.0), d.1))
      (λ e h. (movement_error_unchanged w amount now e).1 h)

-- On a valid wallet whose version can grow twice, if a credit of an amount up to the largest int64
-- succeeds, then a debit of that amount succeeds after it and gives the first balance back.
pub debit-credit_balance :
    (w : Wallet) (amount : Money) (now later : Time)
    → IsValid w
    → pos 1 +ℤ w.version <ℤ max_int64
    → amount.minor_units ≤ℤ max_int64
    → (credit w amount now).1 ≡ ok tt
    → ((debit (credit w amount now).0 amount later).1 ≡ ok tt)
      × ((debit (credit w amount now).0 amount later).0.balance ≡ w.balance)
debit-credit_balance w amount now later v room fits e =
    let room_now : w.version <ℤ max_int64 = omega int_laws in
    let a = credit_ok-IsAmount w amount now fits e in
    let c = credited w amount now v room_now a e in
    let sum = w.balance.minor_units +ℤ amount.minor_units in
    let w' = after w sum now in
    let lo : pos 0 ≤ℤ sum = omega (int_laws, v.balance_nonneg, a.positive) in
    let v' : IsValid w' = after-IsValid w sum now v room_now lo c.0 in
    let a' : IsAmount w' amount = record {
      positive = a.positive;
      fits = a.fits;
      one_currency = a.one_currency;
    } in
    let room_later : w'.version <ℤ max_int64 = omega int_laws in
    let back : sum -ℤ amount.minor_units ≡ w.balance.minor_units = omega int_laws in
    let covered : amount.minor_units ≤ℤ sum = omega (int_laws, v.balance_nonneg) in
    rw c.1 (
      ground (arith, debit_exact w' amount later v' room_later a', covered, back),
      ground (arith, debit_exact w' amount later v' room_later a', covered, back),
    )
