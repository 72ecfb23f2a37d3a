-- ===== src/Books/Kept.antt =====
-- What no statement takes away: the entries of the ledger (0003's trigger) and the messages that the
-- inbox has received.
use wager_ledger.Base.{All, IsInt64, Bool, true, Bytes, Bool-cases, inl, inr, ◌∷◌, List, ◌≡◌, refl}
use wager_ledger.Postgres.{EntryRow, TransactionRow, Db, exists, is_message}

-- The column amount_minor_units is a BIGINT.
abbrev pub HasAmounts : Db → Type 0
HasAmounts db = All (λ (r : TransactionRow). IsInt64 r.amount_minor_units) db.transactions

-- an entry with any property, and the record of any message, are there afterwards as well,
-- and amounts stay int64
pub record Kept (db db' : Db) : Type 0 where
  pub ledger : (p : EntryRow → Bool) → exists p db.entries ≡ true → exists p db'.entries ≡ true
  pub inbox :
      (consumer_name message_id : Bytes)
      → exists (is_message consumer_name message_id) db.inbox ≡ true
      → exists (is_message consumer_name message_id) db'.inbox ≡ true
  pub amounts : HasAmounts db → HasAmounts db'

pub Kept-refl : (db : Db) → Kept db db
Kept-refl db = record { ledger = λ p h. h; inbox = λ c m h. h; amounts = λ h. h }

pub Kept-trans : {a b c : Db} → Kept a b → Kept b c → Kept a c
Kept-trans h k = record {
  ledger = λ p e. k.ledger p (h.ledger p e);
  inbox = λ c m e. k.inbox c m (h.inbox c m e);
  amounts = λ e. k.amounts (h.amounts e);
}

pub exists-cons {ℓ} :
    {A : Type ℓ} (p : A → Bool) (r : A) (rs : List A)
    → exists p rs ≡ true
    → exists p (r ∷ rs) ≡ true
unfolding exists
exists-cons p r rs h = elim (Bool-cases (p r)) [ inl e ↦ rw (e) refl | inr e ↦ rw (e, h) refl ]

-- the same rows in the three tables
pub Kept-same :
    (db db' : Db)
    → db'.entries ≡ db.entries
    → db'.inbox ≡ db.inbox
    → db'.transactions ≡ db.transactions
    → Kept db db'
Kept-same db db' e i t = record {
  ledger = λ p h. rw e h;
  inbox = λ c m h. rw i h;
  amounts = λ h. rw t h;
}

-- other transactions, whose amounts are int64 if they were
pub Kept-transactions :
    (db : Db) (transactions : List TransactionRow)
    → (HasAmounts db → HasAmounts (record db { transactions = transactions }))
    → Kept db (record db { transactions = transactions })
Kept-transactions db transactions h = record { ledger = λ p e. e; inbox = λ c m e. e; amounts = h }
