-- ===== src/Postgres/Leases/Published.antt =====
-- A published event stays published, whatever the repository does (outbox_repository.go).
use wager_ledger.Base.{
  ℕ, ℤ, Bool, true, false, not, ◌&&◌, Bytes, str_eq, str_eq_sound, subst, List, [], ◌∷◌, All, ◌≡◌,
  refl, ◌∙◌, arith, Bool-cases, inl, inr,
}
use wager_ledger.Errors.{ok}
use wager_ledger.Wallet.{Time}
use wager_ledger.Event.{Event}
use wager_ledger.Postgres.Tables.{OutboxRow, Db, timestamptz, exists, update_where}
use wager_ledger.Postgres.Queries.{select_all}
use wager_ledger.Postgres.Queries.Ordered.{
  All-select_all, All-select_all_kept, All-order_by, All-limit, All-map, All-zip,
}
use wager_ledger.Postgres.Leases.{exists-update, update_event-ok, create_outbox-ok}
use wager_ledger.Postgres.Outbox.{
  OutboxRecord, scan_outbox, scan_all, outbox_row, create_outbox, is_unpublished, claimable,
  occurs_before, claimed_rows, lease, claim, event_has_id, published, mark_published,
  failed_attempt, mark_event_failed,
}

-- what one call of the repository makes of the tables
pub data OutboxStep : Db → Db → Type 0 where
  creates :
      {db db' : Db} (e : Event) (now : Time) → create_outbox e now db ≡ ok db' → OutboxStep db db'
  claims :
      (db : Db) (skipped : OutboxRow → Bool) (worker_id : Bytes) (size : ℕ) (ttl : ℤ) (now : Time)
      → OutboxStep db (claim skipped worker_id size ttl now db).1
  publishes :
      {db db' : Db} (id : Bytes) (now : Time)
      → mark_published id now db ≡ ok db'
      → OutboxStep db db'
  fails :
      {db db' : Db} (id : Bytes) (next : Time)
      → mark_event_failed id next db ≡ ok db'
      → OutboxStep db db'

pub data OutboxSteps : Db → Db → Type 0 where
  nil : (db : Db) → OutboxSteps db db
  cons : {a b c : Db} → OutboxStep a b → OutboxSteps b c → OutboxSteps a c

-- a row with the id is there, and each of them is published
record IsPublished (id : Bytes) (rows : List OutboxRow) : Type 0 where
  there : exists (event_has_id id) rows ≡ true
  final : All (λ r. (event_has_id id r && is_unpublished r) ≡ false) rows

-- neither unpublished with the id `id`, nor made so
abbrev IsFinal : Bytes → OutboxRow → Type 0
IsFinal id r = (event_has_id id r && is_unpublished r) ≡ false

-- an update that keeps the ids and what is published
record Preserves (f : OutboxRow → OutboxRow) : Type 0 where
  id : (r : OutboxRow) → (f r).id ≡ r.id
  final : (id : Bytes) (r : OutboxRow) → IsFinal id r → IsFinal id (f r)

IsFinal-update :
    (id : Bytes) (p : OutboxRow → Bool) (f : OutboxRow → OutboxRow) (rows : List OutboxRow)
    → Preserves f
    → All (IsFinal id) rows
    → All (IsFinal id) (update_where p f rows)
unfolding update_where
IsFinal-update id p f [] k h = tt
IsFinal-update id p f (r ∷ rows) k (q, h) = elim (Bool-cases (p r)) [
  | inl e ↦ rw e (k.final id r q, IsFinal-update id p f rows k h)
  | inr e ↦ rw e (q, IsFinal-update id p f rows k h)
]

update-IsPublished :
    (id : Bytes) (p : OutboxRow → Bool) (f : OutboxRow → OutboxRow) (rows : List OutboxRow)
    → Preserves f
    → IsPublished id rows
    → IsPublished id (update_where p f rows)
update-IsPublished id p f rows k h = record {
  there = rw (exists-update id p f rows k.id) h.there;
  final = IsFinal-update id p f rows k h.final;
}

lease-Preserves : (worker_id : Bytes) (now : Time) → Preserves (lease worker_id now)
unfolding is_unpublished
lease-Preserves worker_id now = record { id = λ r. refl; final = λ id r h. h }

failed_attempt-Preserves : (next : Time) → Preserves (failed_attempt next)
unfolding is_unpublished
failed_attempt-Preserves next = record { id = λ r. refl; final = λ id r h. h }

and_false : (b : Bool) → (b && false) ≡ false
and_false true = refl
and_false false = refl

published-Preserves : (now : Time) → Preserves (published now)
unfolding is_unpublished
published-Preserves now = record { id = λ r. refl; final = λ id r h. and_false (event_has_id id r) }

absent-there : (b : Bool) → b ≡ false → b ≡ true → ⊥
absent-there b e h = cc

inserted-IsPublished :
    (id : Bytes) (e : Event) (now : Time) (rows : List OutboxRow)
    → exists (event_has_id e.id) rows ≡ false
    → IsPublished id rows
    → IsPublished id (outbox_row e now ∷ rows)
unfolding exists outbox_row
inserted-IsPublished id e now rows new h =
    let other : str_eq e.id id ≡ false = elim (Bool-cases (str_eq e.id id)) [
      | inl s ↦
          let k : exists (event_has_id id) rows ≡ false =
            subst (λ i. exists (event_has_id i) rows ≡ false) (str_eq_sound e.id id s) new in
          absurd (absent-there (exists (event_has_id id) rows) k h.there)
      | inr s ↦ s
    ] in
    record { there = rw other h.there; final = (rw other refl, h.final) }

step-IsPublished :
    (id : Bytes) {db db' : Db}
    → OutboxStep db db'
    → IsPublished id db.outbox
    → IsPublished id db'.outbox
unfolding mark_published mark_event_failed claim
step-IsPublished id (OutboxStep.creates {db} e now h) p =
    let (new, same) = create_outbox-ok e now db h in
    rw same (inserted-IsPublished id e now db.outbox new p)
step-IsPublished id (OutboxStep.claims db skipped worker_id size ttl now) p =
    update-IsPublished id _ (lease worker_id now) db.outbox (lease-Preserves worker_id now) p
step-IsPublished id (OutboxStep.publishes {db} i now h) p =
    rw ((update_event-ok (published now) i db h).1)
      (update-IsPublished id _ (published now) db.outbox (published-Preserves now) p)
step-IsPublished id (OutboxStep.fails {db} i next h) p =
    rw ((update_event-ok (failed_attempt (timestamptz next)) i db h).1) (
      update-IsPublished id _ (failed_attempt (timestamptz next)) db.outbox
        (failed_attempt-Preserves (timestamptz next)) p)

steps-IsPublished :
    (id : Bytes) {db db' : Db}
    → OutboxSteps db db'
    → IsPublished id db.outbox
    → IsPublished id db'.outbox
steps-IsPublished id (OutboxSteps.nil db) p = p
steps-IsPublished id (OutboxSteps.cons s ss) p = steps-IsPublished id ss (step-IsPublished id s p)

marked-IsFinal :
    (id : Bytes) (now : Time) (rows : List OutboxRow)
    → All (IsFinal id) (update_where (event_has_id id) (published now) rows)
unfolding update_where is_unpublished
marked-IsFinal id now [] = tt
marked-IsFinal id now (r ∷ rows) = elim (Bool-cases (event_has_id id r)) [
  | inl e ↦ rw e (and_false (str_eq r.id id), marked-IsFinal id now rows)
  | inr e ↦ rw e (rw e refl, marked-IsFinal id now rows)
]

mark_published-IsPublished :
    (id : Bytes) (now : Time) (db : Db) {db' : Db}
    → mark_published id now db ≡ ok db'
    → IsPublished id db'.outbox
unfolding mark_published
mark_published-IsPublished id now db h =
    let (there, same) = update_event-ok (published now) id db h in
    rw same (record {
      there = exists-update id _ (published now) db.outbox (λ r. refl) ∙ there;
      final = marked-IsFinal id now db.outbox;
    })

scan_all-All :
    (Q : Bytes → Type 0) (rows : List OutboxRow)
    → All (λ (r : OutboxRow). Q r.id) rows
    → All (λ (r : OutboxRecord). Q r.id) (scan_all rows)
unfolding scan_all scan_outbox
scan_all-All Q [] h = tt
scan_all-All Q (r ∷ rows) (q, h) = (q, scan_all-All Q rows h)

unselected :
    (id : Bytes) (ttl : ℤ) (now : Time) (skip : Bool) (r : OutboxRow)
    → IsFinal id r
    → (claimable ttl now r && not skip) ≡ true
    → str_eq r.id id ≡ false
unfolding claimable
unselected id ttl now skip r final selected = ground (arith, final, selected)

-- Once `MarkPublished` has succeeded for an event, no `Claim` returns this event again, whatever
-- calls of the repository come in between: creations, claims, publications and failures.
pub never_claimed_again :
    (id : Bytes) (at : Time) (db : Db) {db' db'' : Db} (skipped : OutboxRow → Bool)
    (worker_id : Bytes) (size : ℕ) (ttl : ℤ) (now : Time)
    → mark_published id at db ≡ ok db'
    → OutboxSteps db' db''
    → All
        (λ (r : OutboxRecord). str_eq r.id id ≡ false)
        (claim skipped worker_id size ttl now db'').0
unfolding claim claimed_rows
never_claimed_again id at db {db''} skipped worker_id size ttl now h steps =
    let p = steps-IsPublished id steps (mark_published-IsPublished id at db h) in
    let test = λ (r : OutboxRow). claimable ttl now r && not (skipped r) in
    scan_all-All _ _ (
      All-limit _ size _ (
        All-order_by _ occurs_before _ (
          All-map _ _ (λ r x. unselected id ttl now (skipped r) r x.0 x.1)
            (select_all test db''.outbox)
            (All-zip _ _ _ (All-select_all_kept _ test db''.outbox p.final)
              (All-select_all _ test db''.outbox (λ r e. e))))))
