-- ===== src/Sqs/Delivery.antt =====
-- A delivery of a queue message: the books and the inbox (internal/infra/sqs/consumer.go, `handle`).
use wager_ledger.Base.{IsInt64, Bool, true, false, Bytes, Option, ◌≡◌, refl, arith}
use wager_ledger.Errors.{PortsError, ports, Result, ok, err}
use wager_ledger.Postgres.{Db, create_inbox, mark_completed}
use wager_ledger.Usecase.Monad.{Env, World, exec, written, observe, pure, uow_execute}
use wager_ledger.Usecase.Outcomes.{Input}
use wager_ledger.Usecase.Process.{execute_within}
use wager_ledger.Books.Drift.{IsTable, Drift, Drift-refl, still}
use wager_ledger.Books.Received.{
  IsRecorded, create_inbox-Drift, create_inbox-err, mark_completed-Drift,
}
use wager_ledger.Books.Runs.{
  KeepsBooks, Ready, Steps-refl, Steps-trans, Ends, Runs, Always, after_still, observe-Steps,
  raise-Runs, exec-Runs, uow_execute-Drift, uow_execute-committed, still_sum,
}
use wager_ledger.Books.Attempts.{if-Runs}
use wager_ledger.Books.Execution.{attempt-Runs}
use wager_ledger.Sqs.{
  consumer_name, Envelope, Message, Decoded, Decoding, refused, decoded, handled, as_duplicate,
  handling_of, record_message, process_unless, process_once, decode_envelope, handle_decoded,
  handle, effective_id,
}
use wager_ledger.Sqs.Envelopes.{Envelops, decoded-Envelops, decoded-IsInt64, effective_id-own}

-- the consumer's record of a message in the committed tables
abbrev pub IsReceived : Bytes → Db → Type 0
IsReceived = IsRecorded consumer_name

module _ (env : Env) (keeps : KeepsBooks env) where
  recorded-Ends :
      (id hash : Bytes) (w : World) (x : Result Db)
      → Ready w
      → create_inbox consumer_name id hash (observe env w).db ≡ x
      → Ends w still (λ _ u. IsReceived id u.db) (as_duplicate (written env (observe env w) x))
  unfolding written
  recorded-Ends id hash w (ok db) ready e =
      let o = observe-Steps env keeps w ready in
      let d = create_inbox-Drift consumer_name id hash (observe env w).db o.view.table e in
      record {
        outcome = (
          Steps-trans o (record { view = d.0; base = Drift-refl _ o.base.table }) still_sum,
          d.1,
        );
      }
  recorded-Ends id hash w (err (ports PortsError.already_exists)) ready e = record {
    outcome = (
      observe-Steps env keeps w ready,
      create_inbox-err consumer_name id hash (observe env w).db e,
    );
  }
  recorded-Ends id hash w (err _) ready e = record {
    outcome = (observe-Steps env keeps w ready).base;
  }

  record_message-Runs :
      (id hash : Bytes) (w : World)
      → Ready w
      → Runs w still (λ _ u. IsReceived id u.db) (record_message env id hash)
  unfolding record_message exec
  record_message-Runs id hash w ready = record { ends = recorded-Ends id hash w _ ready refl }

  execute_within-Runs :
      (input : Input) (w : World)
      → Ready w
      → IsInt64 input.amount.minor_units
      → Runs w still Always (execute_within env input)
  unfolding execute_within
  execute_within-Runs input w ready fits =
      if-Runs _ (raise-Runs _ w ready) (attempt-Runs env keeps input _ _ w ready fits)

  pure-fact-Runs :
      {A : Type 0} {F : A → World → Type 0} (a : A) (w : World)
      → Ready w
      → F a w
      → Runs w still F (pure a)
  pure-fact-Runs a w ready fact = record { ends = record { outcome = (Steps-refl w ready, fact) } }

  process_unless-Runs :
      (id : Bytes) (input : Input) (duplicate : Bool) (w : World)
      → Ready w
      → IsInt64 input.amount.minor_units
      → IsReceived id w.db
      → Runs w still (λ _ u. IsReceived id u.db) (process_unless env id input duplicate)
  unfolding process_unless
  process_unless-Runs id input true w ready fits r = pure-fact-Runs true w ready r
  process_unless-Runs id input false w ready fits r =
      after_still (execute_within env input) _ (execute_within-Runs input w ready fits)
        λ out w1 r1 s1 _.
          after_still (exec env (mark_completed consumer_name id)) _
            (exec-Runs env keeps _ w1 r1
              (λ db db' d e. mark_completed-Drift consumer_name id db d.table e))
            λ _ w2 r2 s2 _.
              pure-fact-Runs false w2 r2
                (s2.view.kept.inbox consumer_name id (s1.view.kept.inbox consumer_name id r))

  process_once-Runs :
      (id hash : Bytes) (input : Input) (w : World)
      → Ready w
      → IsInt64 input.amount.minor_units
      → Runs w still (λ _ u. IsReceived id u.db) (process_once env id hash input)
  unfolding process_once
  process_once-Runs id hash input w ready fits =
      after_still (record_message env id hash) _ (record_message-Runs id hash w ready)
        λ duplicate w1 r1 _ recorded. process_unless-Runs id input duplicate w1 r1 fits recorded

module _ (env : Env) (keeps : KeepsBooks env) (unmarshal : Bytes → Option Envelope) (m : Message)
    (w : World) (table : IsTable w.base.wallets) where
  ready : Ready (record w { db = w.base })
  ready = record { db = table; base = table }

  handling_of-base :
      (x : Result Bool × World) {b : Db}
      → Drift still b x.1.base
      → Drift still b (handling_of x).1.base
  handling_of-base (ok a, u) d = d
  handling_of-base (err e, u) d = d

  handled-ok :
      (x : Result Bool × World) {duplicate : Bool}
      → (handling_of x).0 ≡ handled duplicate
      → (x.0 ≡ ok duplicate) × ((handling_of x).1 ≡ x.1)
  handled-ok (ok a, u) h = (ground arith, refl)
  handled-ok (err e, u) h = cc

  decoded-Drift :
      (x : Decoding)
      → decode_envelope env unmarshal m.body ≡ x
      → Drift still w.base (handle_decoded env m.sqs_id x w).1.base
  unfolding handle_decoded
  decoded-Drift (refused e) h = Drift-refl w.base table
  decoded-Drift (decoded d) h =
      let (e, v) = decoded-Envelops env unmarshal m.body h in
      handling_of-base _ (
        uow_execute-Drift (process_once env (effective_id d.message_id m.sqs_id) d.hash d.input) w
          (process_once-Runs env keeps _ d.hash d.input _ ready (decoded-IsInt64 v)))

  -- Handling a message keeps the books, whatever it holds and however that ends.
  pub handle-Drift : Drift still w.base (handle env unmarshal m w).1.base
  unfolding handle
  handle-Drift = decoded-Drift _ refl

  decoded-IsReceived :
      (d : Decoded) (e : Envelope) {duplicate : Bool}
      → Envelops d e
      → (handle_decoded env m.sqs_id (decoded d) w).0 ≡ handled duplicate
      → IsReceived d.message_id (handle_decoded env m.sqs_id (decoded d) w).1.base
  unfolding handle_decoded
  decoded-IsReceived d e v h =
      let p = process_once env d.message_id d.hash d.input in
      let own = effective_id-own d.message_id m.sqs_id v.has_id in
      let done = handled-ok (uow_execute p w) (rw own at h) in
      rw (own, done.1)
        (uow_execute-committed (IsReceived d.message_id) p w
          (process_once-Runs env keeps _ d.hash d.input _ ready (decoded-IsInt64 v)) done.0)

  -- A message that was handled is recorded in the committed inbox.
  pub handle-IsReceived :
      {d : Decoded} {duplicate : Bool}
      → decode_envelope env unmarshal m.body ≡ decoded d
      → (handle env unmarshal m w).0 ≡ handled duplicate
      → IsReceived d.message_id (handle env unmarshal m w).1.base
  unfolding handle
  handle-IsReceived {d} h success =
      let (e, v) = decoded-Envelops env unmarshal m.body h in
      rw (handle, h) (decoded-IsReceived d e v (rw (handle, h) at success))
