-- ===== src/Sqs.antt =====
-- internal/infra/sqs/consumer.go: a queue message is decoded, recorded in the inbox and processed in
-- one transaction, and removed from the queue once that has succeeded. Metrics and logs are left out.
pub mod Envelopes
pub mod Delivery
pub mod Once
pub mod Batch
use wager_ledger.Base.{
  Bool, true, false, not, ◌||◌, Bytes, codes, str_eq, is_empty, Option, none, some, List, [], ◌∷◌,
  if◌then◌else◌, ℕ, ◌+◌,
}
use wager_ledger.Errors.{Error, PortsError, ports, Result, ok, err}
use wager_ledger.Money.{Money, MoneyJson, money_of}
use wager_ledger.Postgres.{create_inbox, mark_completed}
use wager_ledger.Usecase.Monad.{Env, World, Action, ◌>>=◌, ◌>>◌, pure, exec, uow_execute}
use wager_ledger.Usecase.Outcomes.{Input}
use wager_ledger.Usecase.Process.{execute_within}

-- `consumerName`
abbrev pub consumer_name : Bytes
consumer_name = codes "wager-transactions"

-- `envelope`, with the money as its text still: `none` where the key is missing, so that
-- `UnmarshalJSON` is not called
pub record Envelope : Type 0 where
  pub message_id : Bytes
  pub message_type : Bytes  -- `Type`
  pub provider_id : Bytes
  pub external_transaction_id : Bytes
  pub idempotency_key : Bytes
  pub player_id : Bytes
  pub wallet_id : Bytes
  pub round_id : Bytes
  pub game_id : Bytes
  pub kind : Bytes
  pub money_json : Option (Option MoneyJson)
  pub reference_external_transaction_id : Bytes

-- why a message is not handled
pub data HandleError : Type 0 where
  empty_body invalid_json invalid_envelope : HandleError
  failed : Error → HandleError

-- what `decodeEnvelope` returns beside an error: the message's id, the input, and the hash
pub record Decoded : Type 0 where
  pub message_id : Bytes
  pub input : Input
  pub hash : Bytes

pub data Decoding : Type 0 where
  refused : HandleError → Decoding
  decoded : Decoded → Decoding

-- whether the message was a duplicate, or the error
pub data Handling : Type 0 where
  unhandled : HandleError → Handling
  handled : Bool → Handling

-- the input that `handle` builds
unfoldable pub input_of : Envelope → Money → Input
input_of e amount = record {
  provider_id = e.provider_id;
  external_transaction_id = e.external_transaction_id;
  idempotency_key = e.idempotency_key;
  player_id = e.player_id;
  wallet_id = e.wallet_id;
  round_id = e.round_id;
  game_id = e.game_id;
  kind = e.kind;
  amount = amount;
  reference_external_transaction_id = e.reference_external_transaction_id;
}

-- a message as SQS hands it over
pub record Message : Type 0 where
  pub body : Option Bytes
  pub sqs_id : Option Bytes
  pub receipt : Bytes

-- `id := e.MessageID; if id == "" && sqsID != nil { id = *sqsID }`
unfoldable pub effective_id : Bytes → Option Bytes → Bytes
effective_id message_id none = message_id
effective_id message_id (some sqs_id) = if is_empty message_id then sqs_id else message_id

-- `errors.Is(err, ports.ErrAlreadyExists)` after the insert, which fails without ending the
-- transaction (ON CONFLICT DO NOTHING)
abbrev pub as_duplicate : Result (Unit {0}) × World → Result Bool × World
as_duplicate (ok u, w) = (ok false, w)
as_duplicate (err (ports PortsError.already_exists), w) = (ok true, w)
as_duplicate (err e, w) = (err e, w)

abbrev pub handling_of {ℓ} : {W : Type ℓ} → Result Bool × W → Handling × W
handling_of (ok duplicate, w) = (handled duplicate, w)
handling_of (err e, w) = (unhandled (failed e), w)

module _ (env : Env) where
  -- `inbox.Create`
  unfoldable pub record_message : Bytes → Bytes → Action Bool
  record_message id hash w = as_duplicate (exec env (create_inbox consumer_name id hash) w)

  -- what follows the insert
  unfoldable pub process_unless : Bytes → Input → Bool → Action Bool
  process_unless id input true = pure true
  process_unless id input false = do
    out ← execute_within env input
    exec env (mark_completed consumer_name id)
    pure false

  -- the function that `handle` runs in a transaction
  unfoldable pub process_once : Bytes → Bytes → Input → Action Bool
  unfolding record_message process_unless
  process_once id hash input = do
    duplicate ← record_message id hash
    process_unless id input duplicate

  unfoldable pub handle_decoded : Option Bytes → Decoding → World → Handling × World
  unfolding process_once effective_id
  handle_decoded sqs_id (refused e) w = (unhandled e, w)
  handle_decoded sqs_id (decoded d) w =
      handling_of (uow_execute (process_once (effective_id d.message_id sqs_id) d.hash d.input) w)

-- The parameter is what encoding/json makes of a body, `none` for an error.
module _ (env : Env) (unmarshal : Bytes → Option Envelope) where
  -- the tests of `decodeEnvelope` behind its JSON
  unfoldable pub check_envelope : Bytes → Envelope → Result Money → Decoding
  unfolding input_of
  check_envelope body e (err bad) = refused invalid_json
  check_envelope body e (ok amount) =
      if not (str_eq e.message_type (codes "WagerTransactionRequested")) || is_empty e.message_id
      then refused invalid_envelope
      else decoded (record {
        message_id = e.message_id;
        input = input_of e amount;
        hash = env.sha256_hex body;
      })

  unfoldable pub decode_envelope : Option Bytes → Decoding
  unfolding check_envelope money_of
  decode_envelope none = refused empty_body
  decode_envelope (some body) = elim (unmarshal body) [
    | none ↦ refused invalid_json
    | some e ↦ check_envelope body e (money_of e.money_json)
  ]

  unfoldable pub handle : Message → World → Handling × World
  unfolding decode_envelope handle_decoded
  handle m w = handle_decoded env m.sqs_id (decode_envelope m.body) w

-- what a round of `run` asks of the queue, by receipt handles
pub record Receipts : Type 0 where
  pub deleted : List Bytes
  pub released : List Bytes

abbrev pub delete : Bytes → Receipts → Receipts
delete receipt r = record r { deleted = receipt ∷ r.deleted }

abbrev pub release : Bytes → Receipts → Receipts
release receipt r = record r { released = receipt ∷ r.released }

unfoldable pub receipts : List Message → List Bytes
receipts [] = []
receipts (m ∷ ms) = m.receipt ∷ receipts ms

-- Further parameters: whether the context is done before the message with a given number, and
-- `errors.Is(err, context.Canceled)`.
module _ (env : Env) (unmarshal : Bytes → Option Envelope) (done : ℕ → Bool)
    (is_canceled : HandleError → Bool) where
  -- what becomes of a message whose handling has ended
  abbrev pub after_handling : Bytes → Handling → Receipts → Receipts
  after_handling receipt (handled duplicate) rest = delete receipt rest
  after_handling receipt (unhandled e) rest = if is_canceled e then release receipt rest else rest

  -- the loop of `run` over the messages of one `ReceiveMessage`
  unfoldable pub receive_all : ℕ → List Message → World → Receipts × World
  unfolding receipts
  receive_all i [] w = (record { deleted = []; released = [] }, w)
  receive_all i (m ∷ ms) w =
      let (h, w1) = handle env unmarshal m w in
      let (rest, w2) = receive_all (i + 1) ms w1 in
      if done i
      then (record { deleted = []; released = receipts (m ∷ ms) }, w)
      else (after_handling m.receipt h rest, w2)
