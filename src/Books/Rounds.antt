-- ===== src/Books/Rounds.antt =====
-- The rounds of the worker keep the books (reference_retry_worker.go).
use wager_ledger.Base.{
  ℕ, zero, suc, pos, ltb_ℤ, Bool, true, false, Bytes, List, [], ◌∷◌, Bool-cases, inl, inr,
}
use wager_ledger.Postgres.{Db}
use wager_ledger.Usecase.Monad.{Env, World, Action, observe, on_pool}
use wager_ledger.Usecase.Resume.{resume_pending_reference, expire_pending_reference}
use wager_ledger.Usecase.Worker.{
  Worker, each_reference, expire_stale, then_expire, process_pending, run_rounds,
}
use wager_ledger.Books.Kept.{HasAmounts}
use wager_ledger.Books.Drift.{IsTable, Drift, Drift-refl, Drift-trans, still}
use wager_ledger.Books.Runs.{KeepsBooks, still_sum}
use wager_ledger.Books.Execution.{expire_pending_reference-Drift}
use wager_ledger.Books.Resumption.{resume_pending_reference-Drift}

-- the wallets are a table, and the amounts of the transactions int64
record Sound (db : Db) : Type 0 where
  table : IsTable db.wallets
  amounts : HasAmounts db

module _ (env : Env) (keeps : KeepsBooks env) (worker : Worker) where
  -- A change of the world that keeps the books.
  abbrev KeepsWorld : (World → World) → Type 0
  KeepsWorld f = (w : World) → Sound w.base → Drift still w.base (f w).base

  Drift-Sound : {a b : Db} → Drift still a b → Sound a → Sound b
  Drift-Sound d s = record { table = d.table; amounts = d.kept.amounts s.amounts }

  on_pool-Keeps : KeepsWorld (on_pool env)
  unfolding on_pool observe
  on_pool-Keeps w s = keeps w.tick w.base s.table

  each_reference-Keeps :
      (act : Bytes → Action (Unit {0})) (ids : List Bytes)
      → ((id : Bytes) → KeepsWorld (λ w. (act id w).1))
      → KeepsWorld (λ w. (each_reference env worker act ids w).1)
  unfolding each_reference
  each_reference-Keeps act [] h w s = Drift-refl w.base s.table
  each_reference-Keeps act (id ∷ ids) h w s = elim (Bool-cases (worker.done w.tick)) [
    | inl e ↦ rw e (Drift-refl w.base s.table)
    | inr e ↦
        let d = h id w s in
        rw e
          (Drift-trans d (each_reference-Keeps act ids h (act id w).1 (Drift-Sound d s)) still_sum)
  ]

  expire_stale-Keeps : KeepsWorld (expire_stale env worker)
  unfolding expire_stale
  expire_stale-Keeps w s = elim (Bool-cases (ltb_ℤ (pos 0) worker.ttl)) [
    | inl e ↦
        let d = on_pool-Keeps w s in
        rw e (
          Drift-trans d
            (each_reference-Keeps (expire_pending_reference env) _
              (λ id v t. expire_pending_reference-Drift env keeps id v t.table) (on_pool env w)
              (Drift-Sound d s))
            still_sum)
    | inr e ↦ rw e (Drift-refl w.base s.table)
  ]

  then_expire-Keeps :
      (b : Db) (x : Bool × World)
      → Sound b
      → Drift still b x.1.base
      → Drift still b (then_expire env worker x).base
  then_expire-Keeps b (true, w) s d =
      Drift-trans d (expire_stale-Keeps w (Drift-Sound d s)) still_sum
  then_expire-Keeps b (false, w) s d = d

  process_pending-Keeps : KeepsWorld (process_pending env worker)
  unfolding process_pending
  process_pending-Keeps w s =
      let d = on_pool-Keeps w s in
      then_expire-Keeps w.base _ s (
        Drift-trans d
          (each_reference-Keeps (resume_pending_reference env) _
            (λ id v t. resume_pending_reference-Drift env keeps id v t.table t.amounts)
            (on_pool env w) (Drift-Sound d s))
          still_sum)

  rounds-Keeps : (n : ℕ) → KeepsWorld (run_rounds env worker n)
  unfolding run_rounds
  rounds-Keeps zero w s = Drift-refl w.base s.table
  rounds-Keeps (suc n) w s =
      let d = process_pending-Keeps w s in
      Drift-trans d (rounds-Keeps n (process_pending env worker w) (Drift-Sound d s)) still_sum

  -- Any number of rounds of the worker keeps the books, whichever references are resumed, expired or
  -- fail, in whatever order, provided that the other transactions keep them, that the wallets have different ids
  -- and int64 columns at first, and that the amounts of the stored transactions are int64.
  pub run_rounds-Drift :
      (n : ℕ) (w : World)
      → IsTable w.base.wallets
      → HasAmounts w.base
      → Drift still w.base (run_rounds env worker n w).base
  run_rounds-Drift n w t h = rounds-Keeps n w (record { table = t; amounts = h })
