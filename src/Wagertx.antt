-- ===== src/Wagertx.antt =====
-- internal/domain/wagertx/wagertx.go: the wager transaction and its state machine. A method on
-- `*WagerTransaction` returns the transaction as it stands after the call, beside its error.
mod Kinds
pub mod Machine
pub mod Validity
unfoldable pub use Kinds.*
use wager_ledger.Base.{
  ℕ, ◌+◌, pos, Bool, true, false, not, ◌&&◌, ◌||◌, Bytes, is_empty, if◌then◌else◌, Option, none,
  some, [],
}
use wager_ledger.Errors.{Error, WagertxError, wagertx, Result, ok, err, ◌>>=◌, ◌>>◌, fail_if}
use wager_ledger.Money.{Money, is_negative, is_zero}
use wager_ledger.Wallet.{Time}

pub record WagerTransaction : Type 0 where
  pub id : Bytes
  pub kind : Kind
  pub status : Status
  pub wallet_id : Bytes
  pub player_id : Bytes
  pub amount : Money  -- `money`
  pub provider_id : Bytes
  pub external_id : Bytes
  pub idempotency_key : Bytes
  pub payload_hash : Bytes
  pub round_id : Bytes
  pub game_id : Bytes
  pub reference_external_id : Bytes
  pub resolved_reference_id : Bytes
  pub failure_code : Bytes
  pub financial_result : Option Money
  pub reference_retry_attempts : ℕ  -- an int that only counts up from 0; it does not wrap here
  pub reference_next_retry_at : Option Time
  pub created_at : Time
  pub updated_at : Time

or_fail : Option Rules → Error → Result Rules
or_fail none e = err e
or_fail (some r) e = ok r

abbrev pub is_opening : Kind → Bool
is_opening opening = true
is_opening _ = false

check_amount : AmountRule → Money → Result (Unit {0})
check_amount amount_must_be_zero amount =
    fail_if (not (is_zero amount)) (wagertx WagertxError.loss_amount_must_be_zero)
check_amount amount_must_be_positive amount =
    fail_if (is_zero amount || is_negative amount) (wagertx WagertxError.amount_must_be_positive)

-- The identifiers that must not be empty, in the order of the tests.
check_texts : Bytes → Bytes → Bytes → Bytes → Bytes → Bytes → Bytes → Bytes → Result (Unit {0})
check_texts provider_id external_id idempotency_key payload_hash wallet_id player_id round_id
      game_id =
    do
      fail_if (is_empty provider_id) (wagertx WagertxError.empty_provider_id)
      fail_if (is_empty external_id) (wagertx WagertxError.empty_external_id)
      fail_if (is_empty idempotency_key) (wagertx WagertxError.empty_idempotency_key)
      fail_if (is_empty payload_hash) (wagertx WagertxError.empty_payload_hash)
      fail_if (is_empty wallet_id) (wagertx WagertxError.empty_wallet_id)
      fail_if (is_empty player_id) (wagertx WagertxError.empty_player_id)
      fail_if (is_empty round_id) (wagertx WagertxError.empty_round_id)
      fail_if (is_empty game_id) (wagertx WagertxError.empty_game_id)

check_reference : Rules → Bytes → Result (Unit {0})
check_reference r reference_external_id = do
  fail_if (r.reference_required && is_empty reference_external_id)
      (wagertx WagertxError.reference_required)
  fail_if (not r.reference_allowed && not (is_empty reference_external_id))
      (wagertx WagertxError.reference_not_allowed)

unfoldable pub new_external_transaction :
    Bytes
    → Bytes
    → Bytes
    → Bytes
    → Bytes
    → Bytes
    → Bytes
    → Bytes
    → Bytes
    → Kind
    → Money
    → Bytes
    → Time
    → Result WagerTransaction
unfolding or_fail check_amount check_texts check_reference
new_external_transaction id provider_id external_id idempotency_key payload_hash wallet_id player_id
      round_id game_id kind amount reference_external_id now =
    do
      fail_if (is_empty id) (wagertx WagertxError.empty_id)
      fail_if (is_opening kind) (wagertx WagertxError.opening_not_external)
      r ← or_fail (rules_for kind) (wagertx WagertxError.invalid_kind)
      check_texts provider_id external_id idempotency_key payload_hash wallet_id player_id round_id
          game_id
      fail_if (is_empty amount.currency) (wagertx WagertxError.empty_currency)
      check_amount r.amount_rule amount
      check_reference r reference_external_id
      ok (record {
        id = id;
        kind = kind;
        status = pending;
        wallet_id = wallet_id;
        player_id = player_id;
        amount = amount;
        provider_id = provider_id;
        external_id = external_id;
        idempotency_key = idempotency_key;
        payload_hash = payload_hash;
        round_id = round_id;
        game_id = game_id;
        reference_external_id = reference_external_id;
        resolved_reference_id = [];
        failure_code = [];
        financial_result = none;
        reference_retry_attempts = 0;
        reference_next_retry_at = none;
        created_at = now;
        updated_at = now;
      })

unfoldable pub new_opening_transaction :
    Bytes → Bytes → Bytes → Money → Time → Result WagerTransaction
new_opening_transaction id wallet_id player_id amount now = do
  fail_if (is_empty id) (wagertx WagertxError.empty_id)
  fail_if (is_empty wallet_id) (wagertx WagertxError.empty_wallet_id)
  fail_if (is_empty player_id) (wagertx WagertxError.empty_player_id)
  fail_if (is_zero amount || is_negative amount) (wagertx WagertxError.amount_must_be_positive)
  ok (record {
    id = id;
    kind = opening;
    status = processed;
    wallet_id = wallet_id;
    player_id = player_id;
    amount = amount;
    provider_id = [];
    external_id = [];
    idempotency_key = [];
    payload_hash = [];
    round_id = [];
    game_id = [];
    reference_external_id = [];
    resolved_reference_id = [];
    failure_code = [];
    financial_result = none;
    reference_retry_attempts = 0;
    reference_next_retry_at = none;
    created_at = now;
    updated_at = now;
  })

-- `Rehydrate`, on the fields gathered as the record.
unfoldable pub rehydrate : WagerTransaction → Result WagerTransaction
rehydrate t = do fail_if (is_empty t.id) (wagertx WagertxError.empty_id); ok t

-- `IsTerminal`
abbrev pub is_terminal : Status → Bool
is_terminal processed = true
is_terminal rejected = true
is_terminal failed = true
is_terminal _ = false

-- `t.status != StatusPending && t.status != StatusPendingReference`
abbrev not_open : Status → Bool
not_open s = not (is_pending s) && not (is_pending_reference s)

-- Either the new transaction, or the transaction as it was with the error.
commit : WagerTransaction → Result WagerTransaction → WagerTransaction × Result (Unit {0})
commit t (ok t') = (t', ok tt)
commit t (err e) = (t, err e)

unfoldable pub mark_pending_reference :
    Time → WagerTransaction → WagerTransaction × Result (Unit {0})
unfolding commit
mark_pending_reference now t = commit t (do
  fail_if (not (is_pending t.status)) (wagertx WagertxError.invalid_transition)
  ok (record t { status = pending_reference; updated_at = now }))

unfoldable pub mark_processed :
    Money → Time → WagerTransaction → WagerTransaction × Result (Unit {0})
unfolding commit
mark_processed financial_result now t = commit t (do
  fail_if (not_open t.status) (wagertx WagertxError.invalid_transition)
  ok (record t { status = processed; financial_result = some financial_result; updated_at = now }))

-- `markRejected`, which `MarkRejected` calls with no result and `MarkRejectedWithResult` with one
unfoldable pub mark_rejected :
    Bytes → Option Money → Time → WagerTransaction → WagerTransaction × Result (Unit {0})
unfolding commit
mark_rejected failure_code financial_result now t = commit t (do
  fail_if (is_empty failure_code) (wagertx WagertxError.empty_failure_code)
  fail_if (not_open t.status) (wagertx WagertxError.invalid_transition)
  ok (record t {
    status = rejected;
    failure_code = failure_code;
    financial_result = financial_result;
    updated_at = now;
  }))

unfoldable pub mark_failed : Bytes → Time → WagerTransaction → WagerTransaction × Result (Unit {0})
unfolding commit
mark_failed failure_code now t = commit t (do
  fail_if (is_empty failure_code) (wagertx WagertxError.empty_failure_code)
  fail_if (not_open t.status) (wagertx WagertxError.invalid_transition)
  ok (record t { status = failed; failure_code = failure_code; updated_at = now }))

unfoldable pub resolve_reference :
    Bytes → Time → WagerTransaction → WagerTransaction × Result (Unit {0})
unfolding commit
resolve_reference reference_id now t = commit t (do
  fail_if (is_empty reference_id) (wagertx WagertxError.empty_id)
  fail_if (is_terminal t.status) (wagertx WagertxError.invalid_transition)
  ok (record t {
    resolved_reference_id = reference_id;
    reference_retry_attempts = 0;
    reference_next_retry_at = none;
    updated_at = now;
  }))

unfoldable pub record_reference_retry_attempt :
    Time → Time → WagerTransaction → WagerTransaction × Result (Unit {0})
unfolding commit
record_reference_retry_attempt next_retry_at now t = commit t (do
  fail_if (not (is_pending_reference t.status)) (wagertx WagertxError.invalid_transition)
  ok (record t {
    reference_retry_attempts = t.reference_retry_attempts + 1;
    reference_next_retry_at = some next_retry_at;
    updated_at = now;
  }))

-- `IsInputValidationError`: the sentinels of `inputValidationErrors`
unfoldable pub is_input_validation_error : Error → Bool
is_input_validation_error (wagertx WagertxError.empty_failure_code) = false
is_input_validation_error (wagertx WagertxError.invalid_transition) = false
is_input_validation_error (wagertx e) = true
is_input_validation_error e = false
