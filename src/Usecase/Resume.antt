-- ===== src/Usecase/Resume.antt =====
-- internal/application/usecase/process_wager_transaction.go: the pending references, resumed or
-- expired by the worker.
use wager_ledger.Base.{
  ℕ, pos, ◌+ℤ◌, ◌+◌, ◌*◌, ◌^◌, not, Bytes, is_empty, Option, none, some, ltb, if◌then◌else◌,
}
use wager_ledger.Errors.{UsecaseError, usecase}
use wager_ledger.Wallet.{Wallet, Time}
use wager_ledger.Wagertx.{
  WagerTransaction, Kind, win, refund, rollback, is_processed, is_pending_reference, is_reversal,
  mark_failed, resolve_reference, record_reference_retry_attempt,
}
use wager_ledger.Event.{new_wager_transaction_expired}
use wager_ledger.Postgres.{
  find_wallet, find_transaction, find_by_provider_and_external_id,
  find_processed_reversal_by_reference, update_transaction, create_outbox,
}
use wager_ledger.Usecase.Monad.{
  Env, Action, ◌>>=◌, ◌>>◌, pure, raise, method, found, query, exec, clock, fresh, uow_execute,
}
use wager_ledger.Usecase.Outcomes.{
  Output, reject, reference_already_reversed, reversal_insufficient_balance, reference_expired,
}
use wager_ledger.Usecase.Process.{
  validate_reference, is_credited, debit_and_settle, credit_and_settle,
}

-- nanoseconds
abbrev pub second : ℕ
second = 1_000_000_000

abbrev max_backoff : ℕ
max_backoff = 30 * second

-- `time.Second << attempts` is `second * 2 ^ attempts`.
unfoldable pub reference_retry_backoff : ℕ → ℕ
reference_retry_backoff attempts =
    if ltb attempts 1
    then second
    else if ltb 5 attempts
    then max_backoff
    else if ltb max_backoff (second * 2 ^ attempts)
    then max_backoff
    else second * 2 ^ attempts

module _ (env : Env) where
  -- The reference is not there, or not PROCESSED: try again later.
  unfoldable pub postpone : WagerTransaction → Action (Unit {0})
  postpone tx = do
    now ← clock env
    tx' ← method (
        record_reference_retry_attempt
          (now +ℤ pos (reference_retry_backoff (tx.reference_retry_attempts + 1))) now tx)
    exec env (update_transaction tx')

  -- `_, err := …; return err`
  abbrev forget : Action Output → Action (Unit {0})
  forget m = do out ← m; pure tt

  -- the switch over the kind, for a reference that fits
  unfoldable pub resume_kind :
      Kind → WagerTransaction → Wallet → WagerTransaction → Time → Action Output
  resume_kind win tx w reference now = credit_and_settle env tx w tx.amount now tx.id
  resume_kind refund tx w reference now = credit_and_settle env tx w tx.amount now tx.id
  resume_kind rollback tx w reference now =
      if is_credited reference.kind
      then debit_and_settle env tx w tx.amount reversal_insufficient_balance now tx.id
      else credit_and_settle env tx w tx.amount now tx.id
  resume_kind _ tx w reference now = raise (usecase UsecaseError.unsupported_kind)

  unfoldable pub resumed_reversal : Kind → WagerTransaction → Action (Option WagerTransaction)
  resumed_reversal kind reference =
      if is_reversal kind
      then query env (λ db. found (find_processed_reversal_by_reference reference.id db))
      else pure none

  unfoldable pub conclude_at :
      WagerTransaction → Wallet → WagerTransaction → Time → Action (Unit {0})
  unfolding resume_kind resumed_reversal
  conclude_at tx w reference now =
      if not (is_empty (validate_reference tx.kind tx reference))
      then forget (reject env tx w (validate_reference tx.kind tx reference) now tx.id)
      else do
        already_reversed ← resumed_reversal tx.kind reference
        elim already_reversed [
          | some other_tx ↦ forget (reject env tx w reference_already_reversed now tx.id)
          | none ↦ do
            tx' ← method (resolve_reference reference.id now tx)
            forget (resume_kind tx'.kind tx' w reference now)
        ]

  unfoldable pub conclude : WagerTransaction → Wallet → WagerTransaction → Action (Unit {0})
  unfolding conclude_at
  conclude tx w reference = do now ← clock env; conclude_at tx w reference now

  unfoldable pub with_found_reference :
      WagerTransaction → Wallet → Option WagerTransaction → Action (Unit {0})
  unfolding postpone conclude
  with_found_reference tx w none = postpone tx
  with_found_reference tx w (some reference) =
      if is_processed reference.status then conclude tx w reference else postpone tx

  unfoldable pub resume_pending : WagerTransaction → Action (Unit {0})
  unfolding with_found_reference
  resume_pending tx = do
    w ← query env (find_wallet tx.wallet_id)
    reference ←
        query env
          λ db. found (find_by_provider_and_external_id tx.provider_id tx.reference_external_id db)
    with_found_reference tx w reference

  unfoldable pub resume_pending_reference : Bytes → Action (Unit {0})
  unfolding resume_pending
  resume_pending_reference id = uow_execute (do
    tx ← query env (find_transaction id)
    if is_pending_reference tx.status then resume_pending tx else pure tt)

  unfoldable pub expire_pending : WagerTransaction → Action (Unit {0})
  expire_pending tx = do
    now ← clock env
    tx' ← method (mark_failed reference_expired now tx)
    exec env (update_transaction tx')
    event_id ← fresh env
    inserted_at ← clock env
    exec env (
        create_outbox
          (new_wager_transaction_expired event_id tx'.wallet_id tx'.id now (record {
            transaction_id = tx'.id;
            wallet_id = tx'.wallet_id;
            provider_id = tx'.provider_id;
            external_id = tx'.external_id;
            reference_external_id = tx'.reference_external_id;
            failure_code = reference_expired;
          }))
          inserted_at)

  unfoldable pub expire_pending_reference : Bytes → Action (Unit {0})
  unfolding expire_pending
  expire_pending_reference id = uow_execute (do
    tx ← query env (find_transaction id)
    if is_pending_reference tx.status then expire_pending tx else pure tt)
