-- ===== src/Usecase/Outcomes.antt =====
-- internal/application/usecase/process_wager_transaction.go: the input, the output, and the ways in
-- which an attempt ends: `pendingReference`, `reject`, `settle`, and the end of a LOSS.
use wager_ledger.Base.{ℤ, Bool, false, Bytes, codes, none, some, []}
use wager_ledger.Money.{Money}
use wager_ledger.Wallet.{Wallet, Time}
use wager_ledger.Wagertx.{
  WagerTransaction, kind_text, status_text, mark_pending_reference, mark_processed, mark_rejected,
}
use wager_ledger.Ledger.{Direction, direction_text, new_entry}
use wager_ledger.Event.{
  Event, new_wager_transaction_processed, new_wager_transaction_rejected,
  new_wallet_balance_changed, new_wager_transaction_pending_reference,
}
use wager_ledger.Postgres.{save_wallet, create_entry, update_transaction, create_outbox}
use wager_ledger.Usecase.Monad.{Env, Action, ◌>>=◌, ◌>>◌, pure, lift, method, exec, clock, fresh}

-- `ProcessWagerTransactionInput`
pub record Input : Type 0 where
  pub provider_id : Bytes
  pub external_transaction_id : Bytes
  pub idempotency_key : Bytes
  pub player_id : Bytes
  pub wallet_id : Bytes
  pub round_id : Bytes
  pub game_id : Bytes
  pub kind : Bytes
  pub amount : Money  -- `Money`
  pub reference_external_transaction_id : Bytes

-- `ProcessWagerTransactionOutput`
pub record Output : Type 0 where
  pub transaction_id : Bytes
  pub status : Bytes
  pub balance : Money
  pub failure_code : Bytes
  pub idempotent_replay : Bool

abbrev pub reference_mismatch : Bytes
reference_mismatch = codes "REFERENCE_MISMATCH"

abbrev pub reference_not_processable : Bytes
reference_not_processable = codes "REFERENCE_NOT_PROCESSABLE"

abbrev pub reference_already_reversed : Bytes
reference_already_reversed = codes "REFERENCE_ALREADY_REVERSED"

abbrev pub reversal_insufficient_balance : Bytes
reversal_insufficient_balance = codes "REVERSAL_INSUFFICIENT_BALANCE"

abbrev pub reference_expired : Bytes
reference_expired = codes "REFERENCE_EXPIRED"

-- internal/domain/wagertx/failurecode.go
abbrev pub insufficient_balance : Bytes
insufficient_balance = codes "INSUFFICIENT_BALANCE"

abbrev pub currency_mismatch : Bytes
currency_mismatch = codes "CURRENCY_MISMATCH"

-- The output that describes a transaction as it has just been stored.
stored_output : WagerTransaction → Wallet → Bytes → Output
stored_output tx w failure_code = record {
  transaction_id = tx.id;
  status = status_text tx.status;
  balance = w.balance;
  failure_code = failure_code;
  idempotent_replay = false;
}

module _ (env : Env) where
  -- `uc.outboxRepo.Create` of an event with a new identifier
  unfoldable pub emit : (Bytes → Event) → Action (Unit {0})
  emit make = do id ← fresh env; now ← clock env; exec env (create_outbox (make id) now)

  unfoldable pub park : WagerTransaction → Wallet → Time → Bytes → Action Output
  unfolding stored_output emit
  park tx w now correlation_id = do
    tx' ← method (mark_pending_reference now tx)
    exec env (update_transaction tx')
    emit λ id. new_wager_transaction_pending_reference id w.id correlation_id now (record {
      transaction_id = tx'.id;
      wallet_id = w.id;
      provider_id = tx'.provider_id;
      external_id = tx'.external_id;
      reference_external_id = tx'.reference_external_id;
    })
    pure (stored_output tx' w [])

  unfoldable pub reject : WagerTransaction → Wallet → Bytes → Time → Bytes → Action Output
  unfolding stored_output emit
  reject tx w failure_code now correlation_id = do
    tx' ← method (mark_rejected failure_code (some w.balance) now tx)
    exec env (update_transaction tx')
    emit λ id. new_wager_transaction_rejected id w.id correlation_id now (record {
      transaction_id = tx'.id;
      wallet_id = w.id;
      provider_id = tx'.provider_id;
      external_id = tx'.external_id;
      kind = kind_text tx'.kind;
      failure_code = failure_code;
    })
    pure (stored_output tx' w failure_code)

  unfoldable pub settle :
      WagerTransaction → Wallet → ℤ → Money → Direction → Money → Time → Bytes → Action Output
  unfolding stored_output emit
  settle tx w previous_version balance_before direction amount now correlation_id = do
    exec env (save_wallet w previous_version)
    entry_id ← fresh env
    entry ← lift (new_entry entry_id w.id tx.id direction amount balance_before w.balance now)
    exec env (create_entry entry)
    tx' ← method (mark_processed w.balance now tx)
    exec env (update_transaction tx')
    emit λ id. new_wager_transaction_processed id w.id correlation_id now (record {
      transaction_id = tx'.id;
      wallet_id = w.id;
      player_id = w.player_id;
      kind = kind_text tx'.kind;
      provider_id = tx'.provider_id;
      external_id = tx'.external_id;
      amount = amount;
      financial_result = none;
      idempotent_replay = false;
    })
    emit λ id. new_wallet_balance_changed id w.id correlation_id now (record {
      wallet_id = w.id;
      transaction_id = tx'.id;
      direction = direction_text direction;
      amount = amount;
      balance_before = balance_before;
      balance_after = w.balance;
      wallet_version = w.version;
    })
    pure (stored_output tx' w [])

  -- the case KindLoss of `attempt`
  unfoldable pub settle_loss : Input → WagerTransaction → Wallet → Time → Bytes → Action Output
  unfolding stored_output emit
  settle_loss input tx w now correlation_id = do
    tx' ← method (mark_processed w.balance now tx)
    exec env (update_transaction tx')
    emit λ id. new_wager_transaction_processed id w.id correlation_id now (record {
      transaction_id = tx'.id;
      wallet_id = w.id;
      player_id = w.player_id;
      kind = kind_text tx'.kind;
      provider_id = input.provider_id;
      external_id = input.external_transaction_id;
      amount = input.amount;
      financial_result = none;
      idempotent_replay = false;
    })
    pure (stored_output tx' w [])
