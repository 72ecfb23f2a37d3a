-- ===== src/Sqs/Batch.antt =====
-- The loop of `run` in internal/infra/sqs/consumer.go over the messages of one receipt.
use wager_ledger.Base.{
  ℕ, ◌+◌, Bool, Bytes, Option, List, [], ◌∷◌, ◌≡◌, refl, All, Bool-cases, inl, inr,
}
use mathlib.Core.List.{Mem, mem-cons_self, mem-cons_of_mem}
use wager_ledger.Postgres.{Db}
use wager_ledger.Usecase.Monad.{Env, World}
use wager_ledger.Books.Drift.{IsTable, Drift, Drift-refl, Drift-trans, still}
use wager_ledger.Books.Runs.{KeepsBooks, still_sum}
use wager_ledger.Sqs.{
  consumer_name, Envelope, Message, Decoded, Decoding, refused, decoded, HandleError, Handling,
  handled, unhandled, decode_envelope, handle_decoded, handle, Receipts, after_handling,
  receive_all,
}
use wager_ledger.Sqs.Delivery.{IsReceived, handle-Drift, handle-IsReceived}

module _ (env : Env) (unmarshal : Bytes → Option Envelope) where
  -- `receipt` is that of one of the messages, and this message has an id that the inbox knows.
  pub record IsProcessed (ms : List Message) (db : Db) (receipt : Bytes) : Type 0 where
    pub message : Message
    pub one_of : Mem message ms
    pub receives : message.receipt ≡ receipt
    pub decodes : Decoded
    pub body : decode_envelope env unmarshal message.body ≡ decoded decodes
    pub received : IsReceived decodes.message_id db

module _ (env : Env) (keeps : KeepsBooks env) (unmarshal : Bytes → Option Envelope)
    (done : ℕ → Bool) (is_canceled : HandleError → Bool) where
  -- A round of the consumer keeps the books, whatever its messages hold, and however many of them are
  -- handled, provided that the other transactions keep them and that the wallets have different ids
  -- and int64 columns at first.
  pub receive_all-Drift :
      (i : ℕ) (ms : List Message) (w : World)
      → IsTable w.base.wallets
      → Drift still w.base (receive_all env unmarshal done is_canceled i ms w).1.base
  unfolding receive_all
  receive_all-Drift i [] w t = Drift-refl w.base t
  receive_all-Drift i (m ∷ ms) w t =
      let d = handle-Drift env keeps unmarshal m w t in
      let rest = receive_all-Drift (i + 1) ms (handle env unmarshal m w).1 d.table in
      elim (Bool-cases (done i)) [
        | inl e ↦ rw e (Drift-refl w.base t)
        | inr e ↦ rw e (Drift-trans d rest still_sum)
      ]

  IsProcessed-later :
      (ms : List Message) {db db' : Db} (m : Message)
      → Drift still db db'
      → (rs : List Bytes) → All (IsProcessed env unmarshal ms db) rs
      → All (IsProcessed env unmarshal (m ∷ ms) db') rs
  IsProcessed-later ms m d [] h = tt
  IsProcessed-later ms m d (r ∷ rs) (p, h) = (
    record {
      message = p.message;
      one_of = mem-cons_of_mem m p.one_of;
      receives = p.receives;
      decodes = p.decodes;
      body = p.body;
      received = d.kept.inbox consumer_name p.decodes.message_id p.received;
    },
    IsProcessed-later ms m d rs h,
  )

  handled-decoded :
      (x : Decoding) (sqs_id : Option Bytes) (w : World) {duplicate : Bool}
      → (handle_decoded env sqs_id x w).0 ≡ handled duplicate
      → (d : Decoded) × (x ≡ decoded d)
  unfolding handle_decoded
  handled-decoded (refused e) sqs_id w h = cc
  handled-decoded (decoded d) sqs_id w h = (d, refl)

  -- What is deleted behind one message: this message if it was handled, and what was deleted later.
  deleted-cons :
      (m : Message) (ms : List Message) (w : World) (rest : Receipts) (db : Db)
      → IsTable w.base.wallets
      → Drift still (handle env unmarshal m w).1.base db
      → All (IsProcessed env unmarshal ms db) rest.deleted
      → (h : Handling) → (handle env unmarshal m w).0 ≡ h
      → All
          (IsProcessed env unmarshal (m ∷ ms) db)
          (after_handling env unmarshal done is_canceled m.receipt h rest).deleted
  unfolding handle
  deleted-cons m ms w rest db t d later (handled duplicate) e =
      let (x, body) = handled-decoded (decode_envelope env unmarshal m.body) m.sqs_id w e in
      (
        record {
          message = m;
          one_of = mem-cons_self;
          receives = refl;
          decodes = x;
          body = body;
          received =
              d.kept.inbox consumer_name x.message_id
                (handle-IsReceived env keeps unmarshal m w t body e);
        },
        IsProcessed-later ms m (Drift-refl db d.table) rest.deleted later,
      )
  deleted-cons m ms w rest db t d later (unhandled x) e =
      let kept = IsProcessed-later ms m (Drift-refl db d.table) rest.deleted later in
      elim (Bool-cases (is_canceled x)) [ inl c ↦ rw c kept | inr c ↦ rw c kept ]

  -- Whatever a round of the consumer deletes from the queue was one of the messages it received, and
  -- is in the committed inbox at the end, provided that the other transactions keep the books and that the
  -- wallets have different ids and int64 columns at first.
  pub receive_all-IsProcessed :
      (i : ℕ) (ms : List Message) (w : World)
      → IsTable w.base.wallets
      → All
          (IsProcessed env unmarshal ms (receive_all env unmarshal done is_canceled i ms w).1.base)
          (receive_all env unmarshal done is_canceled i ms w).0.deleted
  unfolding receive_all
  receive_all-IsProcessed i [] w t = tt
  receive_all-IsProcessed i (m ∷ ms) w t =
      let d = handle-Drift env keeps unmarshal m w t in
      let w1 = (handle env unmarshal m w).1 in
      let rest = receive_all env unmarshal done is_canceled (i + 1) ms w1 in
      elim (Bool-cases (done i)) [
        | inl e ↦ rw e tt
        | inr e ↦ rw e (
            deleted-cons m ms w rest.0 rest.1.base t (receive_all-Drift (i + 1) ms w1 d.table)
              (receive_all-IsProcessed (i + 1) ms w1 d.table) (handle env unmarshal m w).0 refl)
      ]
