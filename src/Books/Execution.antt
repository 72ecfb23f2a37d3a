-- ===== src/Books/Execution.antt =====
-- `Execute` keeps the books: the attempt with its replays, the rounds of retries, and the expiry of
-- a pending reference (process_wager_transaction.go).
use wager_ledger.Base.{
  ℕ, zero, suc, IsInt64, Bool, true, false, not, Bytes, is_empty, Option, none, some, if◌then◌else◌,
  Bool-cases, inl, inr,
}
use wager_ledger.Errors.{Result, ok, err}
use wager_ledger.Money.{Money}
use wager_ledger.Wagertx.{WagerTransaction, Kind, to_kind, is_pending_reference}
use wager_ledger.Postgres.{Db, find_transaction, update_transaction}
use wager_ledger.Usecase.Monad.{
  Env, World, Action, raise_if, method, query, exec, clock, fresh, uow_execute,
}
use wager_ledger.Usecase.Outcomes.{Input, Output}
use wager_ledger.Usecase.Process.{
  replay_balance, replay_output, replay_or_conflict, resolve_by_operation, resolve_by_key,
  resolve_existing, replayed_or, attempt, supported, execute,
}
use wager_ledger.Usecase.Retry.{is_conflict, after_attempt, retry, max_retries}
use wager_ledger.Usecase.Resume.{expire_pending, expire_pending_reference}
use wager_ledger.Books.Drift.{IsTable, Drift, Drift-refl, Drift-trans, still}
use wager_ledger.Books.Inserts.{update_transaction-Drift, create_outbox-Drift}
use wager_ledger.Books.Runs.{
  still_sum, KeepsBooks, Ready, Runs, Always, forget-Runs, after_still, pure-Runs, raise_if-Runs,
  method-Runs, clock-Runs, fresh-Runs, query-Runs, exec-Runs, uow_execute-Drift,
}
use wager_ledger.Books.Attempts.{if-Runs, option-Runs, attempt_new-Runs}

module _ (env : Env) (keeps : KeepsBooks env) where
  read-Runs :
      {A : Type 0} (f : Db → Result A) (w : World) → Ready w → Runs w still Always (query env f)
  read-Runs f w ready = forget-Runs (query-Runs env keeps f w ready)

  replay_balance-Runs :
      (tx : WagerTransaction) (o : Option Money) (w : World)
      → Ready w
      → Runs w still Always (replay_balance env tx o)
  unfolding replay_balance
  replay_balance-Runs tx (some m) w ready = pure-Runs m w ready
  replay_balance-Runs tx none w ready =
      after_still (query env _) _ (read-Runs _ w ready) λ wl w1 r1 _ _. pure-Runs _ w1 r1

  replay-Runs :
      (differs : Bool) (tx : WagerTransaction) (w : World)
      → Ready w
      → Runs w still Always (replay_or_conflict env differs tx)
  unfolding replay_or_conflict replay_output
  replay-Runs differs tx w ready =
      after_still (raise_if differs _) _ (raise_if-Runs differs _ w ready) λ _ w1 r1 _ _.
        after_still (replay_output env tx) _
          (after_still (replay_balance env tx tx.financial_result) _
            (replay_balance-Runs tx tx.financial_result w1 r1) λ b w2 r2 _ _. pure-Runs _ w2 r2)
          λ out w3 r3 _ _. pure-Runs _ w3 r3

  by_operation-Runs :
      (input : Input) (hash : Bytes) (w : World)
      → Ready w
      → Runs w still Always (resolve_by_operation env input hash)
  unfolding resolve_by_operation
  by_operation-Runs input hash w ready =
      after_still (query env _) _ (read-Runs _ w ready) λ existing w1 r1 _ _.
        option-Runs existing _ _ (pure-Runs none w1 r1) (λ tx. replay-Runs _ tx w1 r1)

  by_key-Runs :
      (input : Input) (hash : Bytes) (w : World)
      → Ready w
      → Runs w still Always (resolve_by_key env input hash)
  unfolding resolve_by_key
  by_key-Runs input hash w ready =
      after_still (query env _) _ (read-Runs _ w ready) λ existing w1 r1 _ _.
        option-Runs existing _ _ (by_operation-Runs input hash w1 r1) (λ tx. replay-Runs _ tx w1 r1)

  replayed_or-Runs :
      (o : Option Output) (m : Action Output) (w : World)
      → Ready w
      → Runs w still Always m
      → Runs w still Always (replayed_or o m)
  unfolding replayed_or
  replayed_or-Runs (some out) m w ready h = pure-Runs out w ready
  replayed_or-Runs none m w ready h = h

  pub attempt-Runs :
      (input : Input) (kind : Kind) (hash : Bytes) (w : World)
      → Ready w
      → IsInt64 input.amount.minor_units
      → Runs w still Always (attempt env input kind hash)
  unfolding attempt resolve_existing
  attempt-Runs input kind hash w ready fits =
      after_still (resolve_existing env input hash) _
        (if-Runs (is_empty input.idempotency_key) (by_operation-Runs input hash w ready)
          (by_key-Runs input hash w ready))
        λ existing w1 r1 _ _.
          replayed_or-Runs existing _ w1 r1 (attempt_new-Runs env keeps input kind hash w1 r1 fits)

-- A round that keeps the books, on whichever proper tables it begins.
abbrev pub KeepsDrift : {A : Type 0} → Action A → Type 0
KeepsDrift m = (w : World) → IsTable w.base.wallets → Drift still w.base (m w).1.base

after_attempt-Drift :
    {A : Type 0} (again : Action A) (b : Db) (x : Result A × World)
    → KeepsDrift again
    → Drift still b x.1.base
    → Drift still b (after_attempt again x).1.base
unfolding after_attempt
after_attempt-Drift again b (ok out, w) h d = d
after_attempt-Drift again b (err e, w) h d = elim (Bool-cases (is_conflict e)) [
  | inl c ↦ rw c (Drift-trans d (h w d.table) still_sum)
  | inr c ↦ rw c d
]

retry-Drift :
    {A : Type 0} (n : ℕ) (m : Action A)
    → ((w : World) → Ready w → Runs w still Always m)
    → KeepsDrift (retry n m)
unfolding retry
retry-Drift zero m h w t = Drift-refl w.base t
retry-Drift (suc n) m h w t =
    after_attempt-Drift (retry n m) w.base (uow_execute m w) (retry-Drift n m h)
      (uow_execute-Drift m w (h (record w { db = w.base }) (record { db = t; base = t })))

pub if-Drift :
    {A : Type 0} (c : Bool) (m n : Action A)
    → KeepsDrift m
    → KeepsDrift n
    → KeepsDrift (if c then m else n)
if-Drift true m n h k = h
if-Drift false m n h k = k

module _ (env : Env) (keeps : KeepsBooks env) where
  -- However `Execute` ends, after whatever retries and beside whatever other transactions commit
  -- between its statements, the committed tables have kept the books, provided that these other
  -- transactions keep them, that the wallets have different ids and int64 columns at first, and that
  -- the amount is an int64: no wallet's balance has moved away from the
  -- sum of its ledger entries, versions have not fallen, a wallet's row is the same where its
  -- version is, and no ledger entry and no received message is lost.
  pub execute-Drift :
      (input : Input) (w : World)
      → IsTable w.base.wallets
      → IsInt64 input.amount.minor_units
      → Drift still w.base (execute env input w).1.base
  unfolding execute
  execute-Drift input w t fits =
      if-Drift (not (supported (to_kind input.kind))) _ _ (λ w t. Drift-refl w.base t)
        (retry-Drift max_retries _ (λ w ready. attempt-Runs env keeps input _ _ w ready fits)) w t

  expire-Runs :
      (tx : WagerTransaction) (w : World) → Ready w → Runs w still Always (expire_pending env tx)
  unfolding expire_pending
  expire-Runs tx w ready = after_still (clock env) _ (clock-Runs env keeps w ready) λ now w1 r1 _ _.
      after_still (method _) _ (method-Runs _ w1 r1) λ tx' w2 r2 _ _.
        after_still (exec env (update_transaction tx')) _
          (exec-Runs env keeps (update_transaction tx') w2 r2
            (λ db db' d e. update_transaction-Drift tx' db d.table e))
          λ _ w3 r3 _ _. after_still (fresh env) _ (fresh-Runs env keeps w3 r3) λ id w4 r4 _ _.
            after_still (clock env) _ (clock-Runs env keeps w4 r4) λ at w5 r5 _ _.
              exec-Runs env keeps _ w5 r5 (λ db db' d e. create_outbox-Drift _ at db d.table e)

  -- A pending reference that the worker expires leaves the books kept, committed or rolled back,
  -- provided that the other transactions keep them and that the wallets have different ids and int64
  -- columns at first.
  pub expire_pending_reference-Drift :
      (id : Bytes) (w : World)
      → IsTable w.base.wallets
      → Drift still w.base (expire_pending_reference env id w).1.base
  unfolding expire_pending_reference
  expire_pending_reference-Drift id w t =
      let ready : Ready (record w { db = w.base }) = record { db = t; base = t } in
      uow_execute-Drift _ w (
        after_still (query env (find_transaction id)) _ (read-Runs env keeps _ _ ready)
          λ tx w1 r1 _ _.
            if-Runs (is_pending_reference tx.status) (expire-Runs tx w1 r1) (pure-Runs tt w1 r1))

-- The committed tables after `Execute` has run on them.
abbrev pub after_execute : Env → Input → ℕ → Db → Db
after_execute env input next_id db =
    (execute env input (record { db = db; base = db; tick = 0; next_id = next_id })).1.base

-- Runs of `Execute` are themselves other transactions that keep the books: an environment in which
-- such runs, with int64 amounts and beside transactions that keep the books, commit between any two
-- statements keeps the books.
pub execute-KeepsBooks :
    (env env' : Env) (inputs : ℕ → Input) (next_id : ℕ)
    → KeepsBooks env'
    → ((n : ℕ) → IsInt64 (inputs n).amount.minor_units)
    → KeepsBooks (record env { others = λ n db. after_execute env' (inputs n) next_id db })
execute-KeepsBooks env env' inputs next_id keeps fits n db t =
    execute-Drift env' keeps (inputs n) (record { db = db; base = db; tick = 0; next_id = next_id })
      t (fits n)
