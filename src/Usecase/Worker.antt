-- ===== src/Usecase/Worker.antt =====
-- internal/application/usecase/reference_retry_worker.go: the rounds in which pending references are
-- resumed, and expired once they are too old. Logs are left out.
use wager_ledger.Base.{
  ℕ, zero, suc, ℤ, pos, ◌-ℤ◌, ltb_ℤ, Bool, true, false, Bytes, List, [], ◌∷◌, if◌then◌else◌,
}
use wager_ledger.Wallet.{Time}
use wager_ledger.Postgres.{list_pending_reference_ids, list_stale_pending_reference_ids}
use wager_ledger.Usecase.Monad.{Env, World, Action, on_pool}
use wager_ledger.Usecase.Resume.{resume_pending_reference, expire_pending_reference}

-- What the worker takes from outside besides: the lifetime of a pending reference, the order in which the
-- goroutines of a round end, what the clock of the database says, and whether the context is done
-- before a statement.
pub record Worker : Type 0 where
  pub ttl : ℤ
  pub schedule : ℕ → List Bytes → List Bytes
  pub db_now : ℕ → Time
  pub done : ℕ → Bool

module _ (env : Env) (worker : Worker) where
  -- The goroutines of a round, in the order in which they end, with a `false` if the context was done
  -- before all were started. Their errors are logged; what they commit while another one runs is
  -- part of what its transaction sees of the others.
  unfoldable pub each_reference : (Bytes → Action (Unit {0})) → List Bytes → World → Bool × World
  each_reference act [] w = (true, w)
  each_reference act (id ∷ ids) w =
      let after = each_reference act ids (act id w).1 in
      if worker.done w.tick then (false, w) else after

  -- `expireStale`
  unfoldable pub expire_stale : World → World
  unfolding each_reference
  expire_stale w =
      let seen = on_pool env w in
      let ids = list_stale_pending_reference_ids (env.now w.tick -ℤ worker.ttl) 32 seen.db in
      let after = each_reference (expire_pending_reference env) (worker.schedule w.tick ids) seen in
      if ltb_ℤ (pos 0) worker.ttl then after.1 else w

  abbrev pub then_expire : Bool × World → World
  then_expire (true, w) = expire_stale w
  then_expire (false, w) = w

  -- `processPending`
  unfoldable pub process_pending : World → World
  unfolding expire_stale
  process_pending w =
      let seen = on_pool env w in
      let ids = list_pending_reference_ids 32 (worker.db_now w.tick) seen.db in
      then_expire (each_reference (resume_pending_reference env) (worker.schedule w.tick ids) seen)

  -- a number of rounds of `run`
  unfoldable pub run_rounds : ℕ → World → World
  unfolding process_pending
  run_rounds zero w = w
  run_rounds (suc n) w = run_rounds n (process_pending w)
