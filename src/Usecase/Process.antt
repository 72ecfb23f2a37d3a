-- ===== src/Usecase/Process.antt =====
-- internal/application/usecase/process_wager_transaction.go: `Execute`, `ExecuteWithin` and the
-- attempt that both make. The metrics are left out: they change no result.
use wager_ledger.Base.{
  ℤ, Bool, true, false, not, ◌&&◌, ◌||◌, Bytes, str_eq, is_empty, Option, none, some, [],
  if◌then◌else◌,
}
use wager_ledger.Errors.{
  WalletError, wallet, UsecaseError, usecase, nil_dereference, Result, ok, err,
}
use wager_ledger.Money.{Money, decimal_string, equals}
use wager_ledger.Wallet.{Wallet, Time, currency}
use wager_ledger.Wallet
use wager_ledger.Wagertx.{
  WagerTransaction, Kind, bet, win, loss, refund, rollback, opening, other, to_kind, status_text,
  is_processed, is_terminal, is_reversal, new_external_transaction, resolve_reference,
}
use wager_ledger.Ledger.{debit, credit}
use wager_ledger.Postgres.{
  find_wallet, find_by_idempotency_key, find_by_provider_and_external_id,
  find_processed_reversal_by_reference, create_transaction,
}
use wager_ledger.Usecase.Monad.{
  Env, Action, ◌>>=◌, ◌>>◌, pure, raise, raise_if, lift, method, found, query, exec, clock, fresh,
}
use wager_ledger.Usecase.Retry.{retry, max_retries}
use wager_ledger.Usecase.Idempotency.{compute_payload_hash}
use wager_ledger.Usecase.Outcomes.{
  Input, Output, park, reject, settle, settle_loss, reference_mismatch, reference_not_processable,
  reference_already_reversed, reversal_insufficient_balance, insufficient_balance,
  currency_mismatch,
}

abbrev is_bet : Kind → Bool
is_bet bet = true
is_bet _ = false

-- WIN or REFUND
abbrev pub is_credited : Kind → Bool
is_credited win = true
is_credited refund = true
is_credited _ = false

-- The failure code by the kinds, "" if they fit.
unfoldable pub validate_kinds : Kind → Kind → Bytes
validate_kinds win reference = if is_bet reference then [] else reference_not_processable
validate_kinds refund reference = if is_bet reference then [] else reference_not_processable
validate_kinds rollback reference =
    if not (is_bet reference) && not (is_credited reference) then reference_not_processable else []
validate_kinds _ reference = []

unfoldable pub validate_reference : Kind → WagerTransaction → WagerTransaction → Bytes
unfolding validate_kinds
validate_reference kind tx reference =
    if not (str_eq tx.provider_id reference.provider_id)
      || not (str_eq tx.player_id reference.player_id)
      || not (str_eq tx.wallet_id reference.wallet_id)
      || not (str_eq tx.round_id reference.round_id)
      || not (equals tx.amount reference.amount)
    then reference_mismatch
    else validate_kinds kind reference.kind

-- the kinds that `Execute` supports
unfoldable pub supported : Kind → Bool
supported opening = false
supported (other s) = false
supported _ = true

-- `if found { return …, replay }`, or what follows
unfoldable pub replayed_or : Option Output → Action Output → Action Output
replayed_or (some out) m = pure out
replayed_or none m = m

module _ (env : Env) where
  unfoldable pub payload_hash : Input → Bytes
  payload_hash input = compute_payload_hash env (record {
    provider_id = input.provider_id;
    external_transaction_id = input.external_transaction_id;
    player_id = input.player_id;
    wallet_id = input.wallet_id;
    round_id = input.round_id;
    game_id = input.game_id;
    kind = input.kind;
    money_amount = decimal_string input.amount;
    money_currency = input.amount.currency;
    reference_external_transaction_id = input.reference_external_transaction_id;
  })

  -- the balance of a replay: the stored result, or the wallet's balance where there is none
  unfoldable pub replay_balance : WagerTransaction → Option Money → Action Money
  replay_balance tx (some m) = pure m
  replay_balance tx none = do w ← query env (find_wallet tx.wallet_id); pure w.balance

  unfoldable pub replay_output : WagerTransaction → Action Output
  unfolding replay_balance
  replay_output tx = do
    balance ← replay_balance tx tx.financial_result
    pure (record {
      transaction_id = tx.id;
      status = status_text tx.status;
      balance = balance;
      failure_code = tx.failure_code;
      idempotent_replay = true;
    })

  -- A replay, unless the stored operation has another key or payload.
  unfoldable pub replay_or_conflict : Bool → WagerTransaction → Action (Option Output)
  unfolding replay_output
  replay_or_conflict differs existing = do
    raise_if differs (usecase UsecaseError.idempotency_conflict)
    out ← replay_output existing
    pure (some out)

  unfoldable pub resolve_by_operation : Input → Bytes → Action (Option Output)
  unfolding replay_or_conflict
  resolve_by_operation input hash = do
    existing ← query env λ db.
        found (find_by_provider_and_external_id input.provider_id input.external_transaction_id db)
    elim existing [
      | none ↦ pure none
      | some tx ↦
          replay_or_conflict
            (not (str_eq tx.idempotency_key input.idempotency_key)
              || not (str_eq tx.payload_hash hash))
            tx
    ]

  unfoldable pub resolve_by_key : Input → Bytes → Action (Option Output)
  unfolding replay_or_conflict resolve_by_operation
  resolve_by_key input hash = do
    existing ← query env λ db. found (find_by_idempotency_key input.idempotency_key db)
    elim existing [
      | none ↦ resolve_by_operation input hash
      | some tx ↦ replay_or_conflict (not (str_eq tx.payload_hash hash)) tx
    ]

  -- `none` is `found == false`.
  unfoldable pub resolve_existing : Input → Bytes → Action (Option Output)
  unfolding resolve_by_operation resolve_by_key
  resolve_existing input hash =
      if is_empty input.idempotency_key
      then resolve_by_operation input hash
      else resolve_by_key input hash

  -- After `Debit`: settled, rejected for want of balance with the given code, or failed.
  unfoldable pub debited :
      WagerTransaction
      → Wallet
      → ℤ
      → Money
      → Money
      → Bytes
      → Time
      → Bytes
      → Wallet × Result (Unit {0})
      → Action Output
  debited tx w previous_version balance_before amount code now correlation_id (w', ok u) =
      settle env tx w' previous_version balance_before debit amount now correlation_id
  debited tx w previous_version balance_before amount code now correlation_id
        (w', err (wallet WalletError.insufficient_balance)) =
      reject env tx w' code now correlation_id
  debited tx w previous_version balance_before amount code now correlation_id (w', err e) = raise e

  unfoldable pub debit_and_settle :
      WagerTransaction → Wallet → Money → Bytes → Time → Bytes → Action Output
  unfolding debited
  debit_and_settle tx w amount code now correlation_id =
      debited tx w w.version w.balance amount code now correlation_id (Wallet.debit w amount now)

  unfoldable pub credit_and_settle :
      WagerTransaction → Wallet → Money → Time → Bytes → Action Output
  credit_and_settle tx w amount now correlation_id = do
    w' ← method (Wallet.credit w amount now)
    settle env tx w' w.version w.balance credit amount now correlation_id

  -- the case KindRollback; a nil reference would be dereferenced
  unfoldable pub rollback_and_settle :
      WagerTransaction → Wallet → Option WagerTransaction → Money → Time → Bytes → Action Output
  rollback_and_settle tx w none amount now correlation_id = raise nil_dereference
  rollback_and_settle tx w (some reference) amount now correlation_id =
      if is_credited reference.kind
      then debit_and_settle tx w amount reversal_insufficient_balance now correlation_id
      else credit_and_settle tx w amount now correlation_id

  -- the final switch of `attempt`
  unfoldable pub apply_kind :
      Kind
      → Input
      → WagerTransaction
      → Wallet
      → Option WagerTransaction
      → Time
      → Bytes
      → Action Output
  unfolding rollback_and_settle
  apply_kind bet input tx w reference now correlation_id =
      debit_and_settle tx w input.amount insufficient_balance now correlation_id
  apply_kind win input tx w reference now correlation_id =
      credit_and_settle tx w input.amount now correlation_id
  apply_kind refund input tx w reference now correlation_id =
      credit_and_settle tx w input.amount now correlation_id
  apply_kind rollback input tx w reference now correlation_id =
      rollback_and_settle tx w reference input.amount now correlation_id
  apply_kind loss input tx w reference now correlation_id =
      settle_loss env input tx w now correlation_id
  apply_kind _ input tx w reference now correlation_id =
      raise (usecase UsecaseError.unsupported_kind)

  -- `FindProcessedReversalByReference`, which REFUND and ROLLBACK alone make
  unfoldable pub earlier_reversal : Kind → WagerTransaction → Action (Option WagerTransaction)
  earlier_reversal kind reference =
      if is_reversal kind
      then query env (λ db. found (find_processed_reversal_by_reference reference.id db))
      else pure none

  -- a reference that is PROCESSED
  unfoldable pub with_processed_reference :
      Kind → Input → WagerTransaction → Wallet → WagerTransaction → Time → Bytes → Action Output
  unfolding earlier_reversal
  with_processed_reference kind input tx w reference now correlation_id =
      if not (is_empty (validate_reference kind tx reference))
      then reject env tx w (validate_reference kind tx reference) now correlation_id
      else do
        already_reversed ← earlier_reversal kind reference
        elim already_reversed [
          | some other_tx ↦ reject env tx w reference_already_reversed now correlation_id
          | none ↦ do
            tx' ← method (resolve_reference reference.id now tx)
            apply_kind kind input tx' w (some reference) now correlation_id
        ]

  -- the reference that was looked up
  unfoldable pub with_reference :
      Kind
      → Input
      → WagerTransaction
      → Wallet
      → Time
      → Bytes
      → Option WagerTransaction
      → Action Output
  unfolding with_processed_reference
  with_reference kind input tx w now correlation_id none = park env tx w now correlation_id
  with_reference kind input tx w now correlation_id (some reference) =
      if is_processed reference.status
      then with_processed_reference kind input tx w reference now correlation_id
      else if is_terminal reference.status
      then reject env tx w reference_not_processable now correlation_id
      else park env tx w now correlation_id

  -- `attempt` from the stored PENDING transaction on
  unfoldable pub decide : Kind → Input → WagerTransaction → Wallet → Time → Bytes → Action Output
  unfolding with_reference
  decide kind input tx w now correlation_id =
      if not (str_eq (currency w) input.amount.currency)
      then reject env tx w currency_mismatch now correlation_id
      else if is_empty input.reference_external_transaction_id
      then apply_kind kind input tx w none now correlation_id
      else do
        reference ← query env λ db. found (
            find_by_provider_and_external_id input.provider_id
              input.reference_external_transaction_id db)
        with_reference kind input tx w now correlation_id reference

  -- `attempt` of an operation that is not there yet
  unfoldable pub attempt_new : Input → Kind → Bytes → Action Output
  attempt_new input kind hash = do
    w ← query env (find_wallet input.wallet_id)
    raise_if (not (str_eq w.player_id input.player_id))
        (usecase UsecaseError.wallet_player_mismatch)
    now ← clock env
    id ← fresh env
    tx ← lift (
        new_external_transaction id input.provider_id input.external_transaction_id
          input.idempotency_key hash w.id w.player_id input.round_id input.game_id kind input.amount
          input.reference_external_transaction_id now)
    exec env (create_transaction tx)
    decide kind input tx w now tx.id

  unfoldable pub attempt : Input → Kind → Bytes → Action Output
  unfolding replayed_or
  attempt input kind hash = do
    existing ← resolve_existing input hash
    replayed_or existing (attempt_new input kind hash)

  unfoldable pub execute : Input → Action Output
  unfolding supported payload_hash
  execute input =
      if not (supported (to_kind input.kind))
      then raise (usecase UsecaseError.unsupported_kind)
      else retry max_retries (attempt input (to_kind input.kind) (payload_hash input))

  -- `ExecuteWithin`: one attempt, in the caller's transaction
  unfoldable pub execute_within : Input → Action Output
  unfolding supported payload_hash
  execute_within input =
      if not (supported (to_kind input.kind))
      then raise (usecase UsecaseError.unsupported_kind)
      else attempt input (to_kind input.kind) (payload_hash input)
