-- ===== src/Usecase/Replay.antt =====
-- A repeated operation (process_wager_transaction.go): a replay of the stored outcome, or a conflict.
use wager_ledger.Base.{
  Bool, true, false, not, Bytes, is_empty, str_eq, some, ◌≡◌, refl, ap, ◌∙◌, ℕ, suc,
}
use wager_ledger.Errors.{Error, usecase, UsecaseError, Result, ok, err}
use wager_ledger.Money.{Money}
use wager_ledger.Wagertx.{WagerTransaction, to_kind, status_text}
use wager_ledger.Postgres.{find_by_idempotency_key}
use wager_ledger.Usecase.Monad.{
  Env, World, Action, ◌>>=◌, found, observe, query, close, uow_execute,
}
use wager_ledger.Usecase.Outcomes.{Input, Output}
use wager_ledger.Usecase.Retry.{after_attempt, retry, is_conflict}
use wager_ledger.Usecase.Process.{
  supported, payload_hash, replay_balance, replay_output, replay_or_conflict, resolve_by_key,
  resolve_existing, replayed_or, attempt, execute,
}

-- What follows a first part, by how that ended.
abbrev resume : {A B : Type 0} → (A → Action B) → Result A × World → Result B × World
resume k x = let (r, w') = x in elim r [ ok a ↦ k a w' | err e ↦ (err e, w') ]

-- What a replay of the stored transaction `tx` with the balance `m` returns.
abbrev pub replay_of : WagerTransaction → Money → Output
replay_of tx m = record {
  transaction_id = tx.id;
  status = status_text tx.status;
  balance = m;
  failure_code = tx.failure_code;
  idempotent_replay = true;
}

pub bind-ok :
    {A B : Type 0} (m : Action A) (k : A → Action B) (w : World) {a : A} {w' : World}
    → m w ≡ (ok a, w')
    → (m >>= k) w ≡ k a w'
unfolding ◌>>=◌
bind-ok m k w h = ap (resume k) h

bind-err :
    {A B : Type 0} (m : Action A) (k : A → Action B) (w : World) {e : Error} {w' : World}
    → m w ≡ (err e, w')
    → (m >>= k) w ≡ (err e, w')
unfolding ◌>>=◌
bind-err m k w h = ap (resume k) h

retry-ok :
    {A : Type 0} (n : ℕ) (m : Action A) (w : World) {a : A} {w' : World}
    → m (record w { db = w.base }) ≡ (ok a, w')
    → retry (suc n) m w ≡ (ok a, record w' { base = w'.db })
unfolding retry after_attempt uow_execute close
retry-ok n m w h = ap (λ x. after_attempt (retry n m) (close x)) h

retry-err :
    {A : Type 0} (n : ℕ) (m : Action A) (w : World) {e : Error} {w' : World}
    → is_conflict e ≡ false
    → m (record w { db = w.base }) ≡ (err e, w')
    → retry (suc n) m w ≡ (err e, record w' { db = w'.base })
unfolding retry after_attempt uow_execute close
retry-err n m w final h = ap (λ x. after_attempt (retry n m) (close x)) h ∙ rw final refl

module _ (env : Env) (input : Input) (tx : WagerTransaction)
    (keyed : is_empty input.idempotency_key ≡ false) where
  replay_of-Action :
      (m : Money) (w : World)
      → tx.financial_result ≡ some m
      → replay_or_conflict env false tx w ≡ (ok (some (replay_of tx m)), w)
  unfolding replay_or_conflict replay_output replay_balance ◌>>=◌
  replay_of-Action m w result = rw result refl

  conflict-Action :
      (w : World)
      → replay_or_conflict env true tx w ≡ (err (usecase UsecaseError.idempotency_conflict), w)
  unfolding replay_or_conflict ◌>>=◌
  conflict-Action w = refl

  resolve-stored :
      (hash : Bytes) (differs : Bool) (w : World)
      → find_by_idempotency_key input.idempotency_key (observe env w).db ≡ ok tx
      → not (str_eq tx.payload_hash hash) ≡ differs
      → resolve_existing env input hash w ≡ replay_or_conflict env differs tx (observe env w)
  unfolding resolve_existing resolve_by_key query
  resolve-stored hash differs w stored same = rw keyed (
      bind-ok (query env (λ db. found (find_by_idempotency_key input.idempotency_key db))) _ w
        (ap (λ x. (found x, observe env w)) stored)
      ∙ rw same refl)

module _ (env : Env) (input : Input) (w : World) (tx : WagerTransaction)
    (known : supported (to_kind input.kind) ≡ true) (keyed : is_empty input.idempotency_key ≡ false)
    (stored : find_by_idempotency_key input.idempotency_key (env.others w.tick w.base)
      ≡ ok tx) where
  -- If the request has a supported kind and an idempotency key, and a transaction with that key and
  -- the payload hash of the request is stored with a
  -- financial result when `Execute` first looks, then `Execute` answers with that transaction's
  -- id, status, failure code and financial result, marked as a replay, and writes nothing.
  pub execute_replay :
      (m : Money)
      → str_eq tx.payload_hash (payload_hash env input) ≡ true
      → tx.financial_result ≡ some m
      → ((execute env input w).0 ≡ ok (replay_of tx m))
        × ((execute env input w).1.base ≡ env.others w.tick w.base)
  unfolding execute attempt replayed_or observe
  execute_replay m same result =
      let hash = payload_hash env input in
      let w0 = record w { db = w.base } in
      let found_it =
        resolve-stored env input tx keyed hash false w0 stored (rw same refl)
        ∙ replay_of-Action env input tx keyed m (observe env w0) result in
      let tried = bind-ok (resolve_existing env input hash) _ w0 found_it in
      let e = retry-ok 4 (attempt env input (to_kind input.kind) hash) w tried in
      rw known (ap (λ x. x.0) e, ap (λ x. x.1.base) e)

  -- If the request has a supported kind and an idempotency key, and a transaction with that key but
  -- another payload hash is stored when
  -- `Execute` first looks, then `Execute` returns the error idempotency conflict and writes nothing.
  pub execute_conflict :
      str_eq tx.payload_hash (payload_hash env input) ≡ false
      → ((execute env input w).0 ≡ err (usecase UsecaseError.idempotency_conflict))
        × ((execute env input w).1.base ≡ env.others w.tick w.base)
  unfolding execute attempt replayed_or observe is_conflict
  execute_conflict differs =
      let hash = payload_hash env input in
      let w0 = record w { db = w.base } in
      let found_it =
        resolve-stored env input tx keyed hash true w0 stored (rw differs refl)
        ∙ conflict-Action env input tx keyed (observe env w0) in
      let tried = bind-err (resolve_existing env input hash) _ w0 found_it in
      let e = retry-err 4 (attempt env input (to_kind input.kind) hash) w refl tried in
      rw known (ap (λ x. x.0) e, ap (λ x. x.1.base) e)
