-- ===== src/Examples/Outbox.antt =====
-- Runs of the outbox and of its publisher.
use wager_ledger.Base.{
  ℕ, zero, suc, pos, ◌+ℤ◌, ltb_ℤ, int_laws, min_int64, Bool, false, not, ◌&&◌, Bytes, codes, str_eq,
  none, some, List, [], ◌∷◌, ◌≡◌, refl, All, inl,
}
use wager_ledger.Errors.{ok}
use wager_ledger.Wallet.{Time}
use wager_ledger.Event.{Data, expired}
use wager_ledger.Postgres.{
  OutboxRow, OutboxRecord, Db, timestamptz, exists, update_where, select_all, is_unpublished,
  claimable, claim, claimed_rows, scan_all, is_free, order_by, insert_ordered, limit, scan_outbox,
  mark_published, update_event,
}
use wager_ledger.Postgres.Leases.{has_record}
use wager_ledger.Postgres.Leases.Exclusive.{Call, OutboxCall, calls, claim_exclusive}
use wager_ledger.Postgres.Leases.Fair.{ServedBefore, claim_fair}
use wager_ledger.Postgres.Leases.Published.{OutboxStep, OutboxSteps, never_claimed_again}
use wager_ledger.Publisher.{accepted, refused, Outbound, Relay, backoff, publish_one, run_rounds}
use wager_ledger.Publisher.Backoff.{exact_backoff, backoff_exact}
use wager_ledger.Publisher.Sent.{IsAnnounced, KeepsAnnounced, run_rounds-IsAnnounced}
use wager_ledger.Publisher.Retry.{rows_of, FailedAt, claimable_again}
use wager_ledger.Examples.Store.{no_rows}

abbrev event_data : Data
event_data = expired (record {
  transaction_id = codes "t";
  wallet_id = codes "w";
  provider_id = codes "pr";
  external_id = codes "x";
  reference_external_id = codes "y";
  failure_code = codes "c";
})

-- an event that waits since the time 0
abbrev row : Bytes → Time → OutboxRow
row id at = record {
  id = id;
  aggregate_id = codes "w";
  event_type = codes "WagerTransactionExpired";
  payload = event_data;
  correlation_id = none;
  causation_id = none;
  occurred_at = at;
  version = 1;
  attempts = 0;
  next_attempt_at = pos 0;
  published_at = none;
  locked_by = none;
  locked_at = none;
}

abbrev two_events : Db
two_events = record no_rows { outbox = row (codes "b") (pos 2) ∷ row (codes "a") (pos 1) ∷ [] }

abbrev call_at : Time → Bytes → Call
call_at now worker = record { skipped = λ r. false; worker_id = worker; size = 1; now = now }

abbrev nobody : OutboxRow → Bool
nobody r = false

-- a claim, the publication of the event that was claimed first, a failure of the other, and a claim
abbrev later_calls : List OutboxCall
later_calls =
    OutboxCall.claims (call_at (pos 20) (codes "u"))
    ∷ OutboxCall.publishes (codes "a") (pos 25)
    ∷ OutboxCall.fails (codes "b") (pos 30)
    ∷ OutboxCall.claims (call_at (pos 40) (codes "v"))
    ∷ []

b-unclaimed :
    has_record (codes "b") (claim nobody (codes "v") 1 (pos 30) (pos 10) two_events).0 ≡ false
unfolding claim claimed_rows scan_all claimable is_free is_unpublished select_all order_by
    insert_ordered limit exists scan_outbox str_eq
b-unclaimed = refl

claim_exclusive_example :
    All
      (λ (r : OutboxRecord).
        has_record r.id (claim nobody (codes "v") 1 (pos 30) (pos 10) two_events).0 ≡ false)
      (calls (pos 30) later_calls (claim nobody (codes "v") 1 (pos 30) (pos 10) two_events).1).0
claim_exclusive_example =
    claim_exclusive (pos 30) (pos 10) (call_at (pos 10) (codes "v")) later_calls two_events refl (
      (omega int_laws, omega int_laws),
      (tt, (b-unclaimed, ((omega int_laws, omega int_laws), tt))),
    )

claim_fair_example :
    All
      (ServedBefore 1 (claim nobody (codes "v") 1 (pos 30) (pos 10) two_events).0)
      (select_all (λ r. claimable (pos 30) (pos 10) r && not (nobody r)) two_events.outbox)
claim_fair_example = claim_fair nobody (codes "v") 1 (pos 30) (pos 10) two_events

abbrev one_published : Db
one_published = record two_events {
  outbox =
      row (codes "b") (pos 2)
      ∷ record (row (codes "a") (pos 1)) { published_at = some (pos 5) }
      ∷ [];
}

a-published : mark_published (codes "a") (pos 5) two_events ≡ ok one_published
unfolding mark_published update_event exists update_where str_eq
a-published = refl

never_claimed_again_example :
    All
      (λ (r : OutboxRecord). str_eq r.id (codes "a") ≡ false)
      (claim nobody
        (codes "v")
        20
        (pos 30)
        (pos 60)
        (claim nobody (codes "u") 20 (pos 30) (pos 10) one_published).1).0
never_claimed_again_example =
    never_claimed_again (codes "a") (pos 5) two_events nobody (codes "v") 20 (pos 30) (pos 60)
      a-published
      (OutboxSteps.cons (OutboxStep.claims one_published nobody (codes "u") 20 (pos 30) (pos 10))
        (OutboxSteps.nil _))

-- A publisher whose queue refuses the first message, and takes the others.
abbrev relay : Relay
relay = record {
  worker_id = codes "v";
  marshal = λ e. some (codes "j");
  answer = λ n r. elim n [ zero ↦ refused | suc k ↦ accepted ];
  now = λ n. pos n;
  db_now = λ n. pos n;
  others = λ n w. w;
  skipped = λ n r. false;
  done = λ n. false;
  out_of_range = min_int64;
}

relay-KeepsAnnounced : KeepsAnnounced relay
relay-KeepsAnnounced = record { announced = λ n w h. h; sent = λ n w id h. h }

abbrev outbound : Outbound
outbound = record { db = two_events; sent = []; tick = 0 }

nothing_published : IsAnnounced outbound.sent outbound.db.outbox
unfolding is_unpublished
nothing_published = (refl, (refl, tt))

run_rounds-IsAnnounced_example :
    IsAnnounced (run_rounds relay 2 outbound).sent (run_rounds relay 2 outbound).db.outbox
run_rounds-IsAnnounced_example =
    run_rounds-IsAnnounced relay relay-KeepsAnnounced 2 outbound nothing_published

abbrev first_record : OutboxRecord
first_record = record {
  id = codes "a";
  aggregate_id = codes "w";
  event_type = codes "WagerTransactionExpired";
  payload = event_data;
  correlation_id = [];
  causation_id = [];
  occurred_at = pos 1;
  version = 1;
  attempts = 0;
}

claimable_again_example :
    (n : ℕ) × FailedAt 0 n
    × All
        (λ r. claimable (pos 30) (pos 60) r ≡ (
          is_unpublished r && not (ltb_ℤ (pos 60) (timestamptz (pos n +ℤ pos (exact_backoff 0))))))
        (rows_of relay first_record (publish_one relay first_record outbound))
claimable_again_example =
    claimable_again relay first_record (inl refl) outbound refl (pos 30) (pos 60)

backoff_exact_example : backoff min_int64 40 ≡ pos (exact_backoff 40)
backoff_exact_example = backoff_exact min_int64 40 (inl refl)
