-- ===== src/Event.antt =====
-- internal/domain/event/event.go: the events that the outbox keeps, with their data.
use wager_ledger.Base.{ℕ, ℤ, Bool, Bytes, codes, Option, []}
use wager_ledger.Money.{Money}
use wager_ledger.Wallet.{Time}

pub record WagerTransactionProcessedData : Type 0 where
  pub transaction_id : Bytes
  pub wallet_id : Bytes
  pub player_id : Bytes
  pub kind : Bytes
  pub provider_id : Bytes
  pub external_id : Bytes
  pub amount : Money  -- `Money`
  pub financial_result : Option Money
  pub idempotent_replay : Bool

pub record WagerTransactionRejectedData : Type 0 where
  pub transaction_id : Bytes
  pub wallet_id : Bytes
  pub provider_id : Bytes
  pub external_id : Bytes
  pub kind : Bytes
  pub failure_code : Bytes

pub record WalletBalanceChangedData : Type 0 where
  pub wallet_id : Bytes
  pub transaction_id : Bytes
  pub direction : Bytes
  pub amount : Money  -- `Money`
  pub balance_before : Money
  pub balance_after : Money
  pub wallet_version : ℤ

pub record WagerTransactionPendingReferenceData : Type 0 where
  pub transaction_id : Bytes
  pub wallet_id : Bytes
  pub provider_id : Bytes
  pub external_id : Bytes
  pub reference_external_id : Bytes

pub record WagerTransactionExpiredData : Type 0 where
  pub transaction_id : Bytes
  pub wallet_id : Bytes
  pub provider_id : Bytes
  pub external_id : Bytes
  pub reference_external_id : Bytes
  pub failure_code : Bytes

-- `Data any`, of the types that the constructors put there
pub data Data : Type 0 where
  processed : WagerTransactionProcessedData → Data
  rejected : WagerTransactionRejectedData → Data
  balance_changed : WalletBalanceChangedData → Data
  pending_reference : WagerTransactionPendingReferenceData → Data
  expired : WagerTransactionExpiredData → Data

pub record Event : Type 0 where
  pub id : Bytes
  pub event_type : Bytes  -- `Type`
  pub aggregate_id : Bytes
  pub correlation_id : Bytes
  pub causation_id : Bytes
  pub occurred_at : Time
  pub version : ℕ
  pub payload : Data  -- `Data`

-- the fields that every constructor sets alike
new_event : Bytes → Bytes → Bytes → Bytes → Time → Data → Event
new_event event_type id aggregate_id correlation_id occurred_at payload = record {
  id = id;
  event_type = event_type;
  aggregate_id = aggregate_id;
  correlation_id = correlation_id;
  causation_id = [];
  occurred_at = occurred_at;
  version = 1;
  payload = payload;
}

unfoldable pub new_wager_transaction_processed :
    Bytes → Bytes → Bytes → Time → WagerTransactionProcessedData → Event
unfolding new_event
new_wager_transaction_processed id aggregate_id correlation_id occurred_at d =
    new_event (codes "WagerTransactionProcessed") id aggregate_id correlation_id occurred_at
      (processed d)

unfoldable pub new_wager_transaction_rejected :
    Bytes → Bytes → Bytes → Time → WagerTransactionRejectedData → Event
unfolding new_event
new_wager_transaction_rejected id aggregate_id correlation_id occurred_at d =
    new_event (codes "WagerTransactionRejected") id aggregate_id correlation_id occurred_at
      (rejected d)

unfoldable pub new_wallet_balance_changed :
    Bytes → Bytes → Bytes → Time → WalletBalanceChangedData → Event
unfolding new_event
new_wallet_balance_changed id aggregate_id correlation_id occurred_at d =
    new_event (codes "WalletBalanceChanged") id aggregate_id correlation_id occurred_at
      (balance_changed d)

unfoldable pub new_wager_transaction_pending_reference :
    Bytes → Bytes → Bytes → Time → WagerTransactionPendingReferenceData → Event
unfolding new_event
new_wager_transaction_pending_reference id aggregate_id correlation_id occurred_at d =
    new_event (codes "WagerTransactionPendingReference") id aggregate_id correlation_id occurred_at
      (pending_reference d)

unfoldable pub new_wager_transaction_expired :
    Bytes → Bytes → Bytes → Time → WagerTransactionExpiredData → Event
unfolding new_event
new_wager_transaction_expired id aggregate_id correlation_id occurred_at d =
    new_event (codes "WagerTransactionExpired") id aggregate_id correlation_id occurred_at
      (expired d)
