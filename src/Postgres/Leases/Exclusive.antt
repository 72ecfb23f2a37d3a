-- ===== src/Postgres/Leases/Exclusive.antt =====
-- Two workers do not hold one event at a time (outbox_repository.go, `Claim`).
use wager_ledger.Base.{
  ℕ, ℤ, ◌+ℤ◌, ◌-ℤ◌, ◌≤ℤ◌, ltb_ℤ, +ℤ_parts, -ℤ_parts, Bool, true, false, not, ◌&&◌, Bytes, str_eq,
  str_eq_refl, str_eq_sound, some, List, [], ◌∷◌, ◌++◌, All, All-append, ◌≡◌, ◌⊎◌, refl, sym, ◌∙◌,
  subst, arith, Bool-cases, inl, inr,
}
use wager_ledger.Errors.{Result, ok, err}
use wager_ledger.Wallet.{Time}
use wager_ledger.Event.{Event}
use wager_ledger.Postgres.Tables.{OutboxRow, Db, timestamptz, exists, update_where}
use wager_ledger.Postgres.Queries.{select_all}
use wager_ledger.Postgres.Queries.Ordered.{
  All-select_all, All-select_all_kept, All-order_by, All-limit, All-map, All-zip,
}
use wager_ledger.Postgres.Outbox.{
  OutboxRecord, scan_outbox, scan_all, outbox_row, create_outbox, is_free, is_unpublished,
  claimable, occurs_before, claimed_rows, among, lease, claim, event_has_id, update_event,
  published, mark_published, failed_attempt, mark_event_failed,
}
use wager_ledger.Postgres.Leases.{
  has_record, has_record-scan_all, exists-update, update_event-ok, create_outbox-ok,
}

-- a row whose lease began at `start` or later
record HeldSince (start : Time) (r : OutboxRow) : Type 0 where
  by_ : (worker : Bytes) × (r.locked_by ≡ some worker)
  at_ : (at : Time) × (r.locked_at ≡ some at) × (start ≤ℤ at)

-- a row that nobody else may claim: it is held, or published
abbrev Shut : Time → OutboxRow → Type 0
Shut start r = HeldSince start r ⊎ (is_unpublished r ≡ false)

Shut-unclaimable :
    (start now : Time) (ttl : ℤ) (r : OutboxRow)
    → Shut start r
    → now ≤ℤ start +ℤ ttl
    → claimable ttl now r ≡ false
unfolding claimable is_free
Shut-unclaimable start now ttl r (inl h) soon =
    let (worker, by) = h.by_ in
    let (at, locked, since) = h.at_ in
    let free : ltb_ℤ at (now -ℤ ttl) ≡ false =
      ground (arith, since, soon, +ℤ_parts start ttl, -ℤ_parts now ttl) in
    rw (by, locked, free) (ground arith)
Shut-unclaimable start now ttl r (inr h) soon = rw h (ground arith)

-- one call of `Claim`
pub record Call : Type 0 where
  pub skipped : OutboxRow → Bool
  pub worker_id : Bytes
  pub size : ℕ
  pub now : Time

-- one call of the repository
pub data OutboxCall : Type 0 where
  claims : Call → OutboxCall
  creates : Event → Time → OutboxCall
  publishes fails : Bytes → Time → OutboxCall

-- the tables that a call leaves, if it fails those that it found
abbrev pub left_by : Db → Result Db → Db
left_by db (ok db') = db'
left_by db (err e) = db

unfoldable pub call : ℤ → OutboxCall → Db → List OutboxRecord × Db
call ttl (claims c) db = claim c.skipped c.worker_id c.size ttl c.now db
call ttl (creates e now) db = ([], left_by db (create_outbox e now db))
call ttl (publishes id now) db = ([], left_by db (mark_published id now db))
call ttl (fails id next) db = ([], left_by db (mark_event_failed id next db))

-- calls with one lifetime of leases, one after the other: all the records that they return
unfoldable pub calls : ℤ → List OutboxCall → Db → List OutboxRecord × Db
unfolding call
calls ttl [] db = ([], db)
calls ttl (c ∷ cs) db =
    let (records, db1) = call ttl c db in
    let (more, db2) = calls ttl cs db1 in (records ++ more, db2)

-- an id among those of the rows
abbrev named : List OutboxRow → Bytes → Bool
named first id = exists (λ (c : OutboxRow). str_eq c.id id) first

-- The rows of `first` are there, and shut since `start`.
record Guarded (first : List OutboxRow) (start : Time) (rows : List OutboxRow) : Type 0 where
  shut : All (λ r. named first r.id ≡ true → Shut start r) rows
  there : All (λ (c : OutboxRow). exists (event_has_id c.id) rows ≡ true) first

-- An update of rows keeps that up, if it keeps the ids, and shuts what it changes or leaves it shut.
Shut-update :
    (first : List OutboxRow) (start : Time) (p : OutboxRow → Bool) (f : OutboxRow → OutboxRow)
    (rows : List OutboxRow)
    → ((r : OutboxRow) → (f r).id ≡ r.id)
    → ((r : OutboxRow) → p r ≡ true → named first r.id ≡ true → Shut start (f r))
    → All (λ r. named first r.id ≡ true → Shut start r) rows
    → All (λ r. named first r.id ≡ true → Shut start r) (update_where p f rows)
unfolding update_where
Shut-update first start p f [] same keeps h = tt
Shut-update first start p f (r ∷ rows) same keeps (q, h) =
    let rest = Shut-update first start p f rows same keeps h in
    elim (Bool-cases (p r)) [
      | inl e ↦ rw e ((λ t. keeps r e (rw (same r) at t)), rest)
      | inr e ↦ rw e (q, rest)
    ]

Guarded-update :
    (first : List OutboxRow) (start : Time) (p : OutboxRow → Bool) (f : OutboxRow → OutboxRow)
    (rows : List OutboxRow)
    → ((r : OutboxRow) → (f r).id ≡ r.id)
    → ((r : OutboxRow) → p r ≡ true → named first r.id ≡ true → Shut start (f r))
    → Guarded first start rows
    → Guarded first start (update_where p f rows)
Guarded-update first start p f rows same keeps g = record {
  shut = Shut-update first start p f rows same keeps g.shut;
  there = All-map _ _ (λ c e. exists-update c.id p f rows same ∙ e) first g.there;
}

more_there :
    (id : Bytes) (r : OutboxRow) (rows : List OutboxRow)
    → exists (event_has_id id) rows ≡ true
    → exists (event_has_id id) (r ∷ rows) ≡ true
unfolding exists
more_there id r rows h = elim (Bool-cases (event_has_id id r)) [
  | inl e ↦ rw e refl
  | inr e ↦ rw (e, h) refl
]

-- each row is there
each_there :
    (rows : List OutboxRow) → All (λ (c : OutboxRow). exists (event_has_id c.id) rows ≡ true) rows
unfolding exists
each_there [] = tt
each_there (r ∷ rows) = (
  rw (str_eq_refl r.id) refl,
  All-map _ _ (λ c e. more_there c.id r rows e) rows (each_there rows),
)

named-there :
    (first rows : List OutboxRow) (id : Bytes)
    → All (λ (c : OutboxRow). exists (event_has_id c.id) rows ≡ true) first
    → named first id ≡ true
    → exists (event_has_id id) rows ≡ true
unfolding exists
named-there [] rows id h n = cc
named-there (c ∷ cs) rows id (e, h) n = elim (Bool-cases (str_eq c.id id)) [
  | inl s ↦ subst (λ i. exists (event_has_id i) rows ≡ true) (str_eq_sound c.id id s) e
  | inr s ↦ named-there cs rows id h (rw s at n)
]

abbrev Apart : List OutboxRecord → List OutboxRecord → Type 0
Apart first = All (λ (r : OutboxRecord). has_record r.id first ≡ false)

scan_all-Apart :
    (first : List OutboxRecord) (rows : List OutboxRow)
    → All (λ (r : OutboxRow). has_record r.id first ≡ false) rows
    → Apart first (scan_all rows)
unfolding scan_all scan_outbox
scan_all-Apart first [] h = tt
scan_all-Apart first (r ∷ rows) (p, h) = (p, scan_all-Apart first rows h)

and-true-left : (a b : Bool) → a ≡ false → (a && b) ≡ true → ⊥
and-true-left a b e h = ground (arith, e, h)

unselected :
    (first : List OutboxRow) (start : Time) (ttl : ℤ) (c : Call) (r : OutboxRow)
    → c.now ≤ℤ start +ℤ ttl
    → (named first r.id ≡ true → Shut start r)
    → (claimable ttl c.now r && not (c.skipped r)) ≡ true
    → named first r.id ≡ false
unselected first start ttl c r soon held selected = elim (Bool-cases (named first r.id)) [
  | inl e ↦ absurd (
      and-true-left (claimable ttl c.now r) (not (c.skipped r))
        (Shut-unclaimable start c.now ttl r (held e) soon) selected)
  | inr e ↦ e
]

-- what the WITH clause selects leaves the shut rows aside
claimed_rows-apart :
    (first : List OutboxRow) (start : Time) (ttl : ℤ) (c : Call) (db : Db)
    → c.now ≤ℤ start +ℤ ttl
    → All (λ r. named first r.id ≡ true → Shut start r) db.outbox
    → All (λ r. named first r.id ≡ false) (claimed_rows c.skipped c.size ttl c.now db)
unfolding claimed_rows
claimed_rows-apart first start ttl c db soon held =
    let p = λ (r : OutboxRow). claimable ttl c.now r && not (c.skipped r) in
    All-limit _ c.size _ (
      All-order_by _ occurs_before _ (
        All-map _ _ (λ r h. unselected first start ttl c r soon h.0 h.1) (select_all p db.outbox)
          (All-zip _ _ _ (All-select_all_kept _ p db.outbox held)
            (All-select_all _ p db.outbox (λ r e. e)))))

claimed_rows-there :
    (skipped : OutboxRow → Bool) (size : ℕ) (ttl : ℤ) (now : Time) (db : Db)
    → All
        (λ (c : OutboxRow). exists (event_has_id c.id) db.outbox ≡ true)
        (claimed_rows skipped size ttl now db)
unfolding claimed_rows
claimed_rows-there skipped size ttl now db =
    All-limit _ size _
      (All-order_by _ occurs_before _ (All-select_all_kept _ _ db.outbox (each_there db.outbox)))

module _ (ttl : ℤ) (start : Time) where
  -- a `Claim` while the leases that began at `start` last, or another call, but no `MarkFailed` of an event
  -- of `first`
  abbrev pub IsAdmitted : List OutboxRecord → OutboxCall → Type 0
  IsAdmitted first (claims c) = (start ≤ℤ c.now) × (c.now ≤ℤ start +ℤ ttl)
  IsAdmitted first (creates e now) = Unit
  IsAdmitted first (publishes id now) = Unit
  IsAdmitted first (fails id next) = has_record id first ≡ false

  module _ (first : List OutboxRow) where
    created-Guarded :
        (e : Event) (now : Time) (db : Db) (x : Result Db)
        → create_outbox e now db ≡ x
        → Guarded first start db.outbox
        → Guarded first start (left_by db x).outbox
    unfolding outbox_row
    created-Guarded e now db (err bad) h g = g
    created-Guarded e now db (ok db') h g =
        let (new, same) = create_outbox-ok e now db h in
        rw same (record {
          shut = (
            (λ n. let there = named-there first db.outbox e.id g.there n in absurd (cc)),
            g.shut,
          );
          there =
              All-map _ _ (λ c e1. more_there c.id (outbox_row e now) db.outbox e1) first g.there;
        })

    updated-Guarded :
        (f : OutboxRow → OutboxRow) (id : Bytes) (db : Db) (x : Result Db)
        → update_event f id db ≡ x
        → ((r : OutboxRow) → (f r).id ≡ r.id)
        → ((r : OutboxRow) → event_has_id id r ≡ true → named first r.id ≡ true → Shut start (f r))
        → Guarded first start db.outbox
        → Guarded first start (left_by db x).outbox
    updated-Guarded f id db (err bad) h same keeps g = g
    updated-Guarded f id db (ok db') h same keeps g =
        rw ((update_event-ok f id db h).1)
          (Guarded-update first start (event_has_id id) f db.outbox same keeps g)

    unnamed :
        (id : Bytes) (r : OutboxRow)
        → has_record id (scan_all first) ≡ false
        → str_eq r.id id ≡ true
        → named first r.id ≡ true
        → ⊥
    unnamed id r other same n =
        let there : named first id ≡ true =
          subst (λ i. named first i ≡ true) (str_eq_sound r.id id same) n in
        let no : named first id ≡ false = sym (has_record-scan_all id first) ∙ other in cc

    leased-Shut :
        (c : Call) (r : OutboxRow) → start ≤ℤ c.now → Shut start (lease c.worker_id c.now r)
    leased-Shut c r le = inl (record { by_ = (c.worker_id, refl); at_ = (c.now, refl, le) })

    call-Guarded :
        (c : OutboxCall) (db : Db)
        → IsAdmitted (scan_all first) c
        → Guarded first start db.outbox
        → Apart (scan_all first) (call ttl c db).0 × Guarded first start (call ttl c db).1.outbox
    unfolding call claim mark_published mark_event_failed is_unpublished
    call-Guarded (claims c) db (from, till) g =
        let claimed = claimed_rows c.skipped c.size ttl c.now db in
        (
          scan_all-Apart (scan_all first) claimed (
              All-map _ _ (λ r e. has_record-scan_all r.id first ∙ e) claimed
                (claimed_rows-apart first start ttl c db till g.shut)),
          Guarded-update first start (among claimed) (lease c.worker_id c.now) db.outbox (λ r. refl)
              (λ r _ _. leased-Shut c r from) g,
        )
    call-Guarded (creates e now) db a g = (tt, created-Guarded e now db _ refl g)
    call-Guarded (publishes id now) db a g =
        (tt, updated-Guarded (published now) id db _ refl (λ r. refl) (λ r _ _. inr refl) g)
    call-Guarded (fails id next) db a g = (
      tt,
      updated-Guarded (failed_attempt (timestamptz next)) id db _ refl (λ r. refl)
          (λ r same n. absurd (unnamed id r a same n)) g,
    )

    later-Apart :
        (cs : List OutboxCall) (db : Db)
        → All (IsAdmitted (scan_all first)) cs
        → Guarded first start db.outbox
        → Apart (scan_all first) (calls ttl cs db).0
    unfolding calls
    later-Apart [] db admitted g = tt
    later-Apart (c ∷ cs) db (a, admitted) g =
        let (apart, g1) = call-Guarded c db a g in
        All-append _ (call ttl c db).0 (calls ttl cs (call ttl c db).1).0 apart
          (later-Apart cs (call ttl c db).1 admitted g1)

    first-Shut :
        (worker : Bytes) (rows : List OutboxRow)
        → All
            (λ r. named first r.id ≡ true → Shut start r)
            (update_where (among first) (lease worker start) rows)
    unfolding update_where
    first-Shut worker [] = tt
    first-Shut worker (r ∷ rows) = elim (Bool-cases (among first r)) [
      | inl e ↦ rw e (
        (λ _. inl (record { by_ = (worker, refl); at_ = (start, refl, omega arith) })),
        first-Shut worker rows,
      )
      | inr e ↦ rw e ((λ t. absurd cc), first-Shut worker rows)
    ]

  -- Two workers do not hold one event at a time: no event that a call of `Claim` at `start` returns is
  -- returned again by any of the calls of the repository that follow, creations, claims, publications and
  -- failures, from whichever workers, as long as the claims among them are made within the lifetime of
  -- the leases, from `start` on, and no `MarkFailed` names an event that this first call returned.
  pub claim_exclusive :
      (c : Call) (cs : List OutboxCall) (db : Db)
      → c.now ≡ start
      → All (IsAdmitted (claim c.skipped c.worker_id c.size ttl c.now db).0) cs
      → Apart
          (claim c.skipped c.worker_id c.size ttl c.now db).0
          (calls ttl cs (claim c.skipped c.worker_id c.size ttl c.now db).1).0
  unfolding claim
  claim_exclusive c cs db now admitted =
      let first = claimed_rows c.skipped c.size ttl c.now db in
      later-Apart first cs _ admitted (record {
        shut =
            subst
              (λ t.
                All (λ r. named first r.id ≡ true → Shut start r)
                  (update_where (among first) (lease c.worker_id t) db.outbox))
              (sym now) (first-Shut first c.worker_id db.outbox);
        there =
            All-map _ _
              (λ r e.
                exists-update r.id (among first) (lease c.worker_id c.now) db.outbox (λ _. refl)
                ∙ e)
              first (claimed_rows-there c.skipped c.size ttl c.now db);
      })
