-- ===== src/Examples/Queue.antt =====
-- Runs of the queue's consumer and of the worker.
use wager_ledger.Base.{
  pos, true, false, Bytes, codes, str_eq, Option, none, some, List, [], ◌∷◌, ◌≡◌, refl, All,
}
use wager_ledger.Money.{no_money, money_of, from_minor_units, normalize_currency}
use wager_ledger.Wagertx.{to_kind}
use wager_ledger.Wagertx
use wager_ledger.Postgres.{
  create_inbox, mark_completed, exists, find_by_idempotency_key, select_one, scan_wager_tx,
  transaction_row, nullable_string, deref, nullable_time, timestamptz,
}
use wager_ledger.Usecase.Monad.{World, ◌>>=◌, exec, written, query, observe, uow_execute, close}
use wager_ledger.Usecase.Idempotency.{compute_payload_hash}
use wager_ledger.Usecase.Process.{
  execute_within, supported, payload_hash, attempt, resolve_existing, resolve_by_key,
  replay_or_conflict, replay_output, replay_balance, replayed_or,
}
use wager_ledger.Usecase.Worker.{Worker, run_rounds}
use wager_ledger.Books.Drift.{IsTable, Drift, Drift-refl, still}
use wager_ledger.Books.Rounds.{run_rounds-Drift}
use wager_ledger.Sqs.{
  Envelope, Message, Decoded, decoded, handled, handle, Receipts, receive_all, decode_envelope,
  check_envelope, input_of, handle_decoded, effective_id, process_once, record_message,
  process_unless,
}
use wager_ledger.Sqs.Delivery.{handle-Drift}
use wager_ledger.Sqs.Once.{handle_once}
use wager_ledger.Sqs.Batch.{IsProcessed, receive_all-Drift, receive_all-IsProcessed}
use wager_ledger.Examples.Cases.{
  alone, alone-KeepsBooks, at_start, request, books-IsTable, waiting, waiting-HasAmounts,
  with_outcome,
}

-- the same worker without a limit: whatever is due is resumed in order
abbrev worker : Worker
worker = record { ttl = pos 9; schedule = λ n ids. ids; db_now = λ n. pos n; done = λ n. false }

run_rounds-Drift_example : Drift still waiting (run_rounds alone worker 2 (at_start waiting)).base
run_rounds-Drift_example =
    run_rounds-Drift alone alone-KeepsBooks worker 2 (at_start waiting) books-IsTable
      waiting-HasAmounts

-- a body of one letter stands for the request of the other runs
abbrev envelope : Envelope
envelope = record {
  message_id = codes "m";
  message_type = codes "WagerTransactionRequested";
  provider_id = codes "pr";
  external_transaction_id = codes "x";
  idempotency_key = codes "k";
  player_id = codes "p";
  wallet_id = codes "w";
  round_id = codes "r";
  game_id = codes "g";
  kind = codes "BET";
  money_json = none;
  reference_external_transaction_id = [];
}

abbrev unmarshal : Bytes → Option Envelope
unmarshal [] = none
unmarshal (b ∷ s) = some envelope

abbrev message : Message
message = record { body = some (codes "b"); sqs_id = none; receipt = codes "h" }

abbrev content : Decoded
content = record {
  message_id = codes "m";
  input = record request { amount = no_money };
  hash = codes "hash";
}

decoded-content : decode_envelope alone unmarshal message.body ≡ decoded content
unfolding decode_envelope check_envelope money_of input_of str_eq
decoded-content = refl

-- the first delivery, of a request that has its outcome: it is a replay
first-handled :
    (handle alone unmarshal message (at_start (with_outcome (codes "hash")))).0 ≡ handled false
unfolding handle decode_envelope check_envelope money_of input_of handle_decoded effective_id
    process_once record_message process_unless ◌>>=◌ exec written query observe create_inbox exists
    uow_execute close execute_within supported to_kind payload_hash compute_payload_hash attempt
    resolve_existing resolve_by_key replay_or_conflict replay_output replay_balance replayed_or
    find_by_idempotency_key select_one scan_wager_tx transaction_row nullable_string deref
    nullable_time timestamptz from_minor_units normalize_currency Wagertx.rehydrate str_eq
    mark_completed
first-handled = refl

abbrev stored : World
stored = at_start (with_outcome (codes "hash"))

stored-IsTable : IsTable stored.base.wallets
stored-IsTable = books-IsTable

-- what the first delivery leaves
abbrev delivered : World
delivered = (handle alone unmarshal message stored).1

handle_once_example :
    ((handle alone unmarshal (record message { receipt = codes "i" }) delivered).0 ≡ handled true)
    × ((handle alone unmarshal (record message { receipt = codes "i" }) delivered).1.base
        ≡ delivered.base)
handle_once_example =
    handle_once alone unmarshal message (record message { receipt = codes "i" }) stored delivered
      alone-KeepsBooks stored-IsTable refl first-handled
      (Drift-refl delivered.base
        (handle-Drift alone alone-KeepsBooks unmarshal message stored stored-IsTable).table)

abbrev two_messages : List Message
two_messages = message ∷ record message { receipt = codes "i" } ∷ []

-- a round of the consumer, which is not stopped
abbrev round : Receipts × World
round = receive_all alone unmarshal (λ n. false) (λ e. false) 0 two_messages stored

receive_all-Drift_example : Drift still stored.base round.1.base
receive_all-Drift_example =
    receive_all-Drift alone alone-KeepsBooks unmarshal (λ n. false) (λ e. false) 0 two_messages
      stored stored-IsTable

receive_all-IsProcessed_example :
    All (IsProcessed alone unmarshal two_messages round.1.base) round.0.deleted
receive_all-IsProcessed_example =
    receive_all-IsProcessed alone alone-KeepsBooks unmarshal (λ n. false) (λ e. false) 0
      two_messages stored stored-IsTable
