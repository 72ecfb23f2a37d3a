-- ===== src/Postgres/Leases/Fair.antt =====
-- Which events `Claim` of outbox_repository.go returns, and which have to wait.
use wager_ledger.Base.{
  ℕ, suc, zero, ℤ, ◌≤ℤ◌, Bool, true, not, ◌&&◌, Bytes, str_eq_refl, List, [], ◌∷◌, All, All-append,
  length, ◌≡◌, refl, ap, subst, ◌∙◌, arith, inl, inr, ◌⊎◌, ◌≤◌,
}
use wager_ledger.Wallet.{Time}
use wager_ledger.Postgres.Tables.{OutboxRow, Db, exists}
use wager_ledger.Postgres.Queries.{select_all, order_by, limit, beyond}
use wager_ledger.Postgres.Queries.Ordered.{
  All-map, All-each, All-zip, length-limit, limit-beyond, order_by-All, order_by-Ordered,
  limit-before-beyond,
}
use wager_ledger.Postgres.Outbox.{
  OutboxRecord, scan_outbox, scan_all, claimable, occurs_before, claimed_rows, among, claim,
}
use wager_ledger.Postgres.Leases.{has_record, has_record-scan_all, occurs_before-IsOrder}

length-scan_all : (rows : List OutboxRow) → length (scan_all rows) ≡ length rows
unfolding scan_all
length-scan_all [] = refl
length-scan_all (r ∷ rows) = ap suc (length-scan_all rows)

scan_all-before :
    (u : OutboxRow) (rows : List OutboxRow)
    → All (λ c. occurs_before c u ≡ true) rows
    → All (λ (c : OutboxRecord). c.occurred_at ≤ℤ u.occurred_at) (scan_all rows)
unfolding scan_all scan_outbox
scan_all-before u [] h = tt
scan_all-before u (r ∷ rows) (e, h) = (ground (arith, e), scan_all-before u rows h)

among_self : (rows : List OutboxRow) → All (λ r. among rows r ≡ true) rows
unfolding exists
among_self [] = tt
among_self (r ∷ rows) = (
  rw (str_eq_refl r.id) refl,
  All-map _ _ (λ s (e : among rows s ≡ true). ground (arith, e)) rows (among_self rows),
)

-- a row is left out of a full selection alone
beyond-full :
    {A : Type 0} (n : ℕ) (rows : List A) → All (λ u. length (limit n rows) ≡ n) (beyond n rows)
unfolding limit beyond
beyond-full zero rows = All-each _ (λ u. refl) rows
beyond-full (suc n) [] = tt
beyond-full (suc n) (r ∷ rows) = All-map _ _ (λ u e. ap suc e) (beyond n rows) (beyond-full n rows)

-- An event is among the records, or the call is full with events that have occurred no later.
abbrev pub ServedBefore : ℕ → List OutboxRecord → OutboxRow → Type 0
ServedBefore size records u =
    (has_record u.id records ≡ true)
    ⊎ ((length records ≡ size) × All (λ (c : OutboxRecord). c.occurred_at ≤ℤ u.occurred_at) records)

ordered-served :
    (size : ℕ) (rows : List OutboxRow)
    → All (ServedBefore size (scan_all (limit size (order_by occurs_before rows)))) rows
ordered-served size rows =
    let s = order_by occurs_before rows in
    let claimed = limit size s in
    let served =
      All-map _ (ServedBefore size (scan_all claimed))
        (λ u e. inl (has_record-scan_all u.id claimed ∙ e)) claimed (among_self claimed) in
    let waiting =
      All-map _ (ServedBefore size (scan_all claimed))
        (λ u h. inr (length-scan_all claimed ∙ h.0, scan_all-before u claimed h.1)) (beyond size s)
        (All-zip _ _ _ (beyond-full size s) (
          limit-before-beyond occurs_before occurs_before-IsOrder size s
            (order_by-Ordered occurs_before occurs_before-IsOrder rows))) in
    order_by-All _ occurs_before rows (
      subst (All (ServedBefore size (scan_all claimed))) (limit-beyond size s)
        (All-append _ claimed (beyond size s) served waiting))

module _ (skipped : OutboxRow → Bool) (worker_id : Bytes) (size : ℕ) (ttl : ℤ) (now : Time)
    (db : Db) where
  -- Each event that is due, unpublished and free, and that no other transaction has locked, is
  -- returned by `Claim`, unless the call returns as many events as were asked for, none of which
  -- has occurred later.
  pub claim_fair :
      All
        (ServedBefore size (claim skipped worker_id size ttl now db).0)
        (select_all (λ r. claimable ttl now r && not (skipped r)) db.outbox)
  unfolding claim claimed_rows
  claim_fair =
      ordered-served size (select_all (λ r. claimable ttl now r && not (skipped r)) db.outbox)

  -- `Claim` returns as many records as were asked for at most.
  pub claim_bounded : length (claim skipped worker_id size ttl now db).0 ≤ size
  unfolding claim claimed_rows
  claim_bounded = rw (length-scan_all (claimed_rows skipped size ttl now db)) (length-limit size _)
