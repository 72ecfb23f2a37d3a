-- ===== src/Ledger/Balance.antt =====
-- An entry is accepted exactly when its balances differ by its amount, in its direction.
use wager_ledger.Base.{
  ℤ, pos, ◌+ℤ◌, ◌-ℤ◌, ◌<ℤ◌, IsInt64, false, is_empty, str_eq_refl, str_eq_sound, ◌≡◌, ◌↔◌, arith,
  sym, +ℤ_parts, -ℤ_parts,
}
use wager_ledger.Errors.{Result, ok}
use wager_ledger.Money.{is_negative, is_zero, equals}
use wager_ledger.Money.Arithmetic.{Alike, add-sub_exact}
use wager_ledger.Ledger.{Direction, debit, credit, other, Entry, is_other, new_entry}

-- The change of the balance that an entry records.
unfoldable pub signed : Direction → ℤ → ℤ
signed debit n = pos 0 -ℤ n
signed credit n = n
signed (other s) n = pos 0

-- What the fields of an entry satisfy.
pub record IsBalanced (e : Entry) : Type 0 where
  pub has_id : is_empty e.id ≡ false
  pub has_wallet : is_empty e.wallet_id ≡ false
  pub has_transaction : is_empty e.transaction_id ≡ false
  pub known_direction : is_other e.direction ≡ false
  pub positive : pos 0 <ℤ e.amount.minor_units
  pub before_currency : e.amount.currency ≡ e.balance_before.currency
  pub after_currency : e.amount.currency ≡ e.balance_after.currency
  pub math :
      e.balance_after.minor_units
      ≡ e.balance_before.minor_units +ℤ signed e.direction e.amount.minor_units

abbrev pub rebuild : Entry → Result Entry
rebuild e =
    new_entry e.id e.wallet_id e.transaction_id e.direction e.amount e.balance_before
      e.balance_after e.created_at

-- The amounts of the entry are int64, and its currency is not empty.
pub record FitsInt64 (e : Entry) : Type 0 where
  pub amount : IsInt64 e.amount.minor_units
  pub before : IsInt64 e.balance_before.minor_units
  pub after : IsInt64 e.balance_after.minor_units
  pub has_currency : is_empty e.amount.currency ≡ false

Alike-before :
    (e : Entry)
    → FitsInt64 e
    → e.amount.currency ≡ e.balance_before.currency
    → Alike e.balance_before e.amount
Alike-before e f c = record {
  has_currency = rw (← c) f.has_currency;
  one_currency = sym c;
  left_fits = f.before;
  right_fits = f.amount;
}

-- The fields of a balanced entry are accepted, and give the entry.
new_entry_complete : (e : Entry) → FitsInt64 e → IsBalanced e → rebuild e ≡ ok e
unfolding new_entry is_zero is_negative equals signed
new_entry_complete e f b = ground (
  arith,
  f.has_currency,
  b.before_currency,
  b.after_currency,
  b.math,
  b.positive,
  f.after,
  str_eq_refl e.amount.currency,
  +ℤ_parts e.balance_before.minor_units e.amount.minor_units,
  -ℤ_parts e.balance_before.minor_units e.amount.minor_units,
  +ℤ_parts e.balance_before.minor_units (signed e.direction e.amount.minor_units),
  -ℤ_parts (pos 0) e.amount.minor_units,
  (add-sub_exact e.balance_before e.amount (Alike-before e f b.before_currency)).0,
  (add-sub_exact e.balance_before e.amount (Alike-before e f b.before_currency)).1,
)

accepted_currencies :
    (e : Entry)
    → rebuild e ≡ ok e
    → (e.amount.currency ≡ e.balance_before.currency)
      × (e.amount.currency ≡ e.balance_after.currency)
unfolding new_entry
accepted_currencies e h = (
  str_eq_sound e.amount.currency e.balance_before.currency (ground arith),
  str_eq_sound e.amount.currency e.balance_after.currency (ground arith),
)

-- An entry that is accepted is balanced: it names its wallet and transaction, its amount is
-- positive, and its balances are of one currency and differ by the amount, in its direction.
new_entry_sound : (e : Entry) → FitsInt64 e → rebuild e ≡ ok e → IsBalanced e
unfolding new_entry is_zero is_negative equals signed
new_entry_sound e f h =
    let c = accepted_currencies e h in
    let exact = add-sub_exact e.balance_before e.amount (Alike-before e f c.0) in
    record {
      has_id = ground arith;
      has_wallet = ground arith;
      has_transaction = ground arith;
      known_direction = ground arith;
      positive = ground arith;
      before_currency = c.0;
      after_currency = c.1;
      math = ground (
        arith,
        exact.0,
        exact.1,
        +ℤ_parts e.balance_before.minor_units e.amount.minor_units,
        -ℤ_parts e.balance_before.minor_units e.amount.minor_units,
        +ℤ_parts e.balance_before.minor_units (signed e.direction e.amount.minor_units),
        -ℤ_parts (pos 0) e.amount.minor_units,
      );
    }

-- Where the amounts are int64 and the currency is not empty, the fields of an entry are accepted
-- exactly if it names its wallet and transaction and its direction is known, its amount is positive,
-- and its balances are of the amount's currency and differ by the amount, in its direction.
pub new_entry_iff : (e : Entry) → FitsInt64 e → (rebuild e ≡ ok e) ↔ IsBalanced e
new_entry_iff e f = (new_entry_sound e f, new_entry_complete e f)
