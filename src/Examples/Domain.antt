-- ===== src/Examples/Domain.antt =====
-- Runs of the domain: money, a wallet, an entry and a wager transaction.
use wager_ledger.Base.{
  ℤ, pos, negsuc, ◌+ℤ◌, ◌-ℤ◌, codes, [], ◌∷◌, none, some, ◌≡◌, ◌↔◌, ◌⊎◌, refl, arith,
}
use wager_ledger.Errors.{ok}
use wager_ledger.Money.{
  Money, MoneyJson, add, sub, normalize_currency, parse_decimal_to_minor_units, print_minor_units,
  marshal_json, unmarshal_json, is_zero, is_negative,
}
use wager_ledger.Money.Amount.RoundTrip.{parse-print}
use wager_ledger.Money.Arithmetic.{Alike, add-sub_exact}
use wager_ledger.Money.Json.{unmarshal-marshal}
use wager_ledger.Wallet.{Wallet, debit, credit}
use wager_ledger.Wallet.Exact.{IsValid, IsAmount, after, debit_exact}
use wager_ledger.Wallet.Moves.{Moved, debit-Moved, credit-Moved}
use wager_ledger.Ledger
use wager_ledger.Ledger.{Entry}
use wager_ledger.Ledger.Balance.{IsBalanced, rebuild, new_entry_iff}
use wager_ledger.Wagertx.{
  WagerTransaction, bet, pending, processed, rules_for, new_external_transaction,
}
use wager_ledger.Wagertx.Machine.{
  Call, ◌⟶◌, call, run, SameOperation, IsConsistent, call-⟶, run_terminal, run_keeps,
}
use wager_ledger.Wagertx.Validity.{IsAcceptable, new_external_transaction-IsAcceptable}

abbrev pub usd : ℤ → Money
usd n = record { minor_units = n; currency = codes "USD" }

Alike-usd : Alike (usd (pos 1_000)) (usd (pos 250))
Alike-usd = record {
  has_currency = refl;
  one_currency = refl;
  left_fits = (omega arith, omega arith);
  right_fits = (omega arith, omega arith);
}

add-sub_exact_example :
    (add (usd (pos 1_000)) (usd (pos 250)) ≡ ok (usd (pos 1_250)))
    × (sub (usd (pos 1_000)) (usd (pos 250)) ≡ ok (usd (pos 750)))
unfolding ◌+ℤ◌ ◌-ℤ◌
add-sub_exact_example = add-sub_exact (usd (pos 1_000)) (usd (pos 250)) Alike-usd

parse-print_example :
    parse_decimal_to_minor_units (print_minor_units (negsuc 1_049)) ≡ ok (negsuc 1_049)
unfolding ◌-ℤ◌
parse-print_example = parse-print (negsuc 1_049) (omega arith) (omega arith)

pub usd-normal : normalize_currency (codes "USD") ≡ ok (codes "USD")
unfolding normalize_currency
usd-normal = refl

unmarshal-marshal_example :
    (j : MoneyJson) × (marshal_json (usd (pos 1_050)) ≡ ok j)
    × (unmarshal_json (some j) ≡ ok (usd (pos 1_050)))
unmarshal-marshal_example =
    unmarshal-marshal (usd (pos 1_050)) (record {
      nonneg = omega arith;
      fits = omega arith;
      normal = usd-normal;
      has_currency = refl;
    })

abbrev pub purse : Wallet
purse = record {
  id = codes "w";
  player_id = codes "p";
  balance = usd (pos 1_000);
  version = pos 3;
  created_at = pos 0;
  updated_at = pos 0;
}

pub purse-IsValid : IsValid purse
purse-IsValid = record {
  has_id = refl;
  has_player = refl;
  has_currency = refl;
  balance_nonneg = omega arith;
  balance_fits = omega arith;
  version_positive = omega arith;
  version_fits = omega arith;
}

IsAmount-usd : IsAmount purse (usd (pos 250))
IsAmount-usd = record { positive = omega arith; fits = omega arith; one_currency = refl }

debit_exact_example : debit purse (usd (pos 250)) (pos 5) ≡ (after purse (pos 750) (pos 5), ok tt)
unfolding ◌-ℤ◌
debit_exact_example =
    debit_exact purse (usd (pos 250)) (pos 5) purse-IsValid (omega arith) IsAmount-usd

debit-Moved_example : Moved purse (usd (pos 250)) ◌-ℤ◌ (pos 5) (debit purse (usd (pos 250)) (pos 5))
debit-Moved_example =
    debit-Moved purse (usd (pos 250)) (pos 5) purse-IsValid (omega arith) (omega arith)

credit-Moved_example :
    Moved purse (usd (pos 250)) ◌+ℤ◌ (pos 5) (credit purse (usd (pos 250)) (pos 5))
credit-Moved_example =
    credit-Moved purse (usd (pos 250)) (pos 5) purse-IsValid (omega arith) (omega arith)

abbrev paid : Entry
paid = record {
  id = codes "e";
  wallet_id = codes "w";
  transaction_id = codes "t";
  direction = Ledger.debit;
  amount = usd (pos 250);
  balance_before = usd (pos 1_000);
  balance_after = usd (pos 750);
  created_at = pos 5;
}

new_entry_iff_example : (rebuild paid ≡ ok paid) ↔ IsBalanced paid
new_entry_iff_example = new_entry_iff paid (record {
  amount = (omega arith, omega arith);
  before = (omega arith, omega arith);
  after = (omega arith, omega arith);
  has_currency = refl;
})

abbrev pub stake : WagerTransaction
stake = record {
  id = codes "t";
  kind = bet;
  status = pending;
  wallet_id = codes "w";
  player_id = codes "p";
  amount = usd (pos 250);
  provider_id = codes "pr";
  external_id = codes "x";
  idempotency_key = codes "k";
  payload_hash = codes "h";
  round_id = codes "r";
  game_id = codes "g";
  reference_external_id = [];
  resolved_reference_id = [];
  failure_code = [];
  financial_result = none;
  reference_retry_attempts = 0;
  reference_next_retry_at = none;
  created_at = pos 0;
  updated_at = pos 0;
}

abbrev settled : WagerTransaction
settled = record stake { status = processed; financial_result = some (usd (pos 750)) }

call-⟶_example :
    ((call Call.park (pos 5) stake).0.status ≡ pending)
    ⊎ (pending ⟶ (call Call.park (pos 5) stake).0.status)
call-⟶_example = call-⟶ Call.park (pos 5) stake

run_terminal_example :
    run ((Call.park, pos 5) ∷ (Call.fail (codes "C"), pos 6) ∷ []) settled ≡ settled
run_terminal_example =
    run_terminal ((Call.park, pos 5) ∷ (Call.fail (codes "C"), pos 6) ∷ []) settled refl

run_keeps_example :
    SameOperation stake (run ((Call.park, pos 5) ∷ (Call.fail (codes "C"), pos 6) ∷ []) stake)
    × IsConsistent (run ((Call.park, pos 5) ∷ (Call.fail (codes "C"), pos 6) ∷ []) stake)
run_keeps_example =
    run_keeps ((Call.park, pos 5) ∷ (Call.fail (codes "C"), pos 6) ∷ []) stake
      (record { code = refl; result = λ e f. absurd (cc); no_result = λ e. refl })

new_external_transaction-IsAcceptable_example :
    (stake.status ≡ pending) × IsConsistent stake × IsAcceptable stake
unfolding new_external_transaction rules_for is_zero is_negative
new_external_transaction-IsAcceptable_example =
    new_external_transaction-IsAcceptable (codes "t") (codes "pr") (codes "x") (codes "k")
      (codes "h") (codes "w") (codes "p") (codes "r") (codes "g") bet (usd (pos 250)) [] (pos 0)
      {t = stake} refl
