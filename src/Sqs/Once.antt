-- ===== src/Sqs/Once.antt =====
-- A queue message is processed once (internal/infra/sqs/consumer.go, `handle`).
use wager_ledger.Base.{Bool, true, Bytes, Option, ◌≡◌, refl}
use wager_ledger.Errors.{PortsError, ports, ok, err}
use wager_ledger.Postgres.{Db, create_inbox}
use wager_ledger.Usecase.Monad.{Env, World, exec, written, observe, close, uow_execute}
use wager_ledger.Usecase.Outcomes.{Input}
use wager_ledger.Usecase.Replay.{bind-ok}
use wager_ledger.Books.Drift.{IsTable, Drift, still}
use wager_ledger.Books.Runs.{KeepsBooks}
use wager_ledger.Sqs.{
  Decoding, refused, consumer_name, Envelope, Message, Decoded, decoded, handled, record_message,
  process_unless, process_once, decode_envelope, handle_decoded, handle,
}
use wager_ledger.Sqs.Envelopes.{decoded-Envelops, effective_id-own}
use wager_ledger.Sqs.Delivery.{IsReceived, handle-IsReceived}

create_inbox-again :
    (id hash : Bytes) (db : Db)
    → IsReceived id db
    → create_inbox consumer_name id hash db ≡ err (ports PortsError.already_exists)
unfolding create_inbox
create_inbox-again id hash db r = rw r refl

record_message-again :
    (env : Env) (id hash : Bytes) (w : World)
    → IsReceived id (observe env w).db
    → record_message env id hash w ≡ (ok true, observe env w)
unfolding record_message exec written
record_message-again env id hash w r = rw (create_inbox-again id hash (observe env w).db r) refl

duplicate-Action :
    (env : Env) (id hash : Bytes) (input : Input) (w : World)
    → IsReceived id (observe env w).db
    → process_once env id hash input w ≡ (ok true, observe env w)
unfolding process_once process_unless
duplicate-Action env id hash input w r =
    bind-ok (record_message env id hash) (process_unless env id input) w
      (record_message-again env id hash w r)

-- A message with a decodable body, which is recorded when the insert sees the inbox, is a duplicate: it is handled without an error,
-- and nothing is written.
pub handle_duplicate :
    (env : Env) (unmarshal : Bytes → Option Envelope) (m : Message) (w : World) {d : Decoded}
    → decode_envelope env unmarshal m.body ≡ decoded d
    → IsReceived d.message_id (env.others w.tick w.base)
    → ((handle env unmarshal m w).0 ≡ handled true)
      × ((handle env unmarshal m w).1.base ≡ env.others w.tick w.base)
unfolding handle handle_decoded uow_execute close observe
handle_duplicate env unmarshal m w {d} h r =
    let (e, v) = decoded-Envelops env unmarshal m.body h in
    let own = effective_id-own d.message_id m.sqs_id v.has_id in
    let run = duplicate-Action env d.message_id d.hash d.input (record w { db = w.base }) r in
    rw (h, own, run) (refl, refl)

handled-decoded :
    (env : Env) (sqs_id : Option Bytes) (x : Decoding) (w : World) {duplicate : Bool}
    → (handle_decoded env sqs_id x w).0 ≡ handled duplicate
    → (d : Decoded) × (x ≡ decoded d)
unfolding handle_decoded
handled-decoded env sqs_id (refused e) w h = cc
handled-decoded env sqs_id (decoded d) w h = (d, refl)

-- Once a message was handled, each redelivery of it, the same body under whatever receipt and whatever id of
-- SQS, is handled as a duplicate and commits nothing, provided that the other transactions and what was
-- committed in between keep the books, and that the wallets have different ids and int64 columns at first.
pub handle_once :
    (env : Env) (unmarshal : Bytes → Option Envelope) (m m' : Message) (w w' : World)
    {duplicate : Bool}
    → KeepsBooks env
    → IsTable w.base.wallets
    → m'.body ≡ m.body
    → (handle env unmarshal m w).0 ≡ handled duplicate
    → Drift still (handle env unmarshal m w).1.base w'.base
    → ((handle env unmarshal m' w').0 ≡ handled true)
      × ((handle env unmarshal m' w').1.base ≡ env.others w'.tick w'.base)
unfolding handle
handle_once env unmarshal m m' w w' keeps table same success later =
    let (d, decodes) =
      handled-decoded env m.sqs_id (decode_envelope env unmarshal m.body) w success in
    let recorded = handle-IsReceived env keeps unmarshal m w table decodes success in
    handle_duplicate env unmarshal m' w' {d = d} (rw same decodes) (
      (keeps w'.tick w'.base later.table).kept.inbox consumer_name d.message_id
        (later.kept.inbox consumer_name d.message_id recorded))
