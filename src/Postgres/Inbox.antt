-- ===== src/Postgres/Inbox.antt =====
-- internal/infra/postgres/inbox_repository.go: the messages that a consumer has received.
use wager_ledger.Base.{Bool, true, false, ◌&&◌, Bytes, str_eq, ◌∷◌}
use wager_ledger.Errors.{PortsError, ports, Result, ok, ◌>>◌, fail_if}
use wager_ledger.Postgres.Tables.{InboxRow, Db, exists, update_where}

abbrev pub is_message : Bytes → Bytes → InboxRow → Bool
is_message consumer_name message_id r =
    str_eq r.consumer_name consumer_name && str_eq r.message_id message_id

-- `InboxRepository.Create`
unfoldable pub create_inbox : Bytes → Bytes → Bytes → Db → Result Db
create_inbox consumer_name message_id message_hash db = do
  fail_if (exists (is_message consumer_name message_id) db.inbox) (ports PortsError.already_exists)
  ok (record db {
    inbox =
        record {
          consumer_name = consumer_name;
          message_id = message_id;
          message_hash = message_hash;
          completed = false;
        }
        ∷ db.inbox;
  })

-- `InboxRepository.MarkCompleted`
unfoldable pub mark_completed : Bytes → Bytes → Db → Result Db
mark_completed consumer_name message_id db = ok (record db {
  inbox =
      update_where (is_message consumer_name message_id) (λ r. record r { completed = true })
        db.inbox;
})
