-- ===== src/Books/Received.antt =====
-- The inbox: what `Create` and `MarkCompleted` of internal/infra/postgres/inbox_repository.go do.
use wager_ledger.Base.{
  true, false, Bytes, str_eq_refl, Bool-cases, inl, inr, List, [], ◌∷◌, ◌≡◌, refl, arith,
}
use wager_ledger.Errors.{Error, ok, err, ok-injective}
use wager_ledger.Postgres.{
  InboxRow, Db, exists, update_where, is_message, create_inbox, mark_completed,
}
use wager_ledger.Books.Kept.{exists-cons}
use wager_ledger.Books.Drift.{IsTable, Drift, still}
use wager_ledger.Books.Inserts.{SameBooks-Drift}

-- the inbox of the consumer has a record of the message
abbrev pub IsRecorded : Bytes → Bytes → Db → Type 0
IsRecorded consumer_name message_id db =
    exists (is_message consumer_name message_id) db.inbox ≡ true

-- the row that `Create` inserts
abbrev received : Bytes → Bytes → Bytes → InboxRow
received consumer_name message_id message_hash = record {
  consumer_name = consumer_name;
  message_id = message_id;
  message_hash = message_hash;
  completed = false;
}

module _ (consumer_name message_id message_hash : Bytes) (db : Db) where
  create_inbox-ok :
      {db' : Db}
      → create_inbox consumer_name message_id message_hash db ≡ ok db'
      → db' ≡ record db { inbox = received consumer_name message_id message_hash ∷ db.inbox }
  unfolding create_inbox
  create_inbox-ok h = ground arith

  pub create_inbox-Drift :
      {db' : Db}
      → IsTable db.wallets
      → create_inbox consumer_name message_id message_hash db ≡ ok db'
      → Drift still db db' × IsRecorded consumer_name message_id db'
  unfolding create_inbox exists
  create_inbox-Drift {db'} table h = rw (create_inbox-ok h) (
    SameBooks-Drift db _ table refl refl (record {
      ledger = λ p e. e;
      amounts = λ e. e;
      inbox = λ c m.
          exists-cons (is_message c m) (received consumer_name message_id message_hash) db.inbox;
    }),
    rw (str_eq_refl consumer_name, str_eq_refl message_id) refl,
  )

  pub create_inbox-err :
      {e : Error}
      → create_inbox consumer_name message_id message_hash db ≡ err e
      → IsRecorded consumer_name message_id db
  unfolding create_inbox
  create_inbox-err h = ground arith

-- completion leaves the keys of the rows alone
complete-exists :
    (c m c' m' : Bytes) (rows : List InboxRow)
    → exists (is_message c m) rows ≡ true
    → exists
        (is_message c m)
        (update_where (is_message c' m') (λ r. record r { completed = true }) rows)
      ≡ true
unfolding exists update_where
complete-exists c m c' m' [] h = h
complete-exists c m c' m' (r ∷ rs) h =
    let rest = complete-exists c m c' m' rs in
    elim (Bool-cases (is_message c' m' r)) [
      | inl e ↦ rw e (ground (arith, rest))
      | inr e ↦ rw e (ground (arith, rest))
    ]

pub mark_completed-Drift :
    (consumer_name message_id : Bytes) (db : Db) {db' : Db}
    → IsTable db.wallets
    → mark_completed consumer_name message_id db ≡ ok db'
    → Drift still db db'
unfolding mark_completed
mark_completed-Drift c m db {db'} table h = rw (← ok-injective h) (
    SameBooks-Drift db _ table refl refl (record {
      ledger = λ p e. e;
      amounts = λ e. e;
      inbox = λ c' m'. complete-exists c' m' c m db.inbox;
    }))
