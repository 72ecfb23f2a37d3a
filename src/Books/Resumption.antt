-- ===== src/Books/Resumption.antt =====
-- A pending reference that the worker resumes keeps the books (process_wager_transaction.go,
-- `ResumePendingReference`). The amount comes from the row that is read.
use wager_ledger.Base.{
  IsInt64, Bool, Bytes, Bool-cases, Option, none, some, List, [], ◌∷◌, All, ◌≡◌, refl, sym, subst,
  arith, inl, inr,
}
use wager_ledger.Errors.{ok}
use wager_ledger.Money.{from_minor_units}
use wager_ledger.Wallet.{Wallet, Time}
use wager_ledger.Wagertx.{
  WagerTransaction, Kind, win, refund, rollback, is_reversal, is_pending_reference,
  resolve_reference, rehydrate,
}
use wager_ledger.Postgres.{
  WalletRow, TransactionRow, Db, select_one, find_wallet, find_transaction, scan_wager_tx,
  transaction_has_id, update_transaction,
}
use wager_ledger.Usecase.Monad.{Env, World, Action, ◌>>=◌, pure, method, query, clock}
use wager_ledger.Usecase.Outcomes.{Output}
use wager_ledger.Usecase.Resume.{
  postpone, resume_kind, resumed_reversal, conclude_at, conclude, with_found_reference,
  resume_pending, resume_pending_reference,
}
use wager_ledger.Books.Kept.{HasAmounts}
use wager_ledger.Books.Drift.{IsTable, Drift, still}
use wager_ledger.Books.Inserts.{update_transaction-Drift}
use wager_ledger.Books.Movements.{IsRead, find_wallet-IsRead}
use wager_ledger.Books.Runs.{
  KeepsBooks, Ready, Runs, Always, forget-Runs, after_still, pure-Runs, raise-Runs, method-Runs,
  clock-Runs, query-Runs, viewed-Runs, exec-Runs, uow_execute-Drift,
}
use wager_ledger.Books.Outcomes.{reject-Runs}
use wager_ledger.Books.Attempts.{
  if-Runs, option-Runs, IsRead-Steps, debit_and_settle-Runs, credit_and_settle-Runs,
}

select_one-All :
    {A : Type 0} (P : A → Type 0) (p : A → Bool) (rs : List A) {r : A}
    → All P rs
    → select_one p rs ≡ some r
    → P r
unfolding select_one
select_one-All P p [] h e = cc
select_one-All P p (s ∷ rs) {r} h e = elim (Bool-cases (p s)) [
  | inl here ↦ let same : s ≡ r = ground arith in subst P same h.0
  | inr there ↦ select_one-All P p rs {r = r} h.1 (ground arith)
]

scan-amount :
    (o : Option TransactionRow) {tx : WagerTransaction}
    → scan_wager_tx o ≡ ok tx
    → (r : TransactionRow) × (o ≡ some r) × (tx.amount.minor_units ≡ r.amount_minor_units)
unfolding scan_wager_tx from_minor_units rehydrate
scan-amount none h = cc
scan-amount (some r) h = (r, refl, ground arith)

find_transaction-IsInt64 :
    (id : Bytes) (db : Db) {tx : WagerTransaction}
    → HasAmounts db
    → find_transaction id db ≡ ok tx
    → IsInt64 tx.amount.minor_units
unfolding find_transaction
find_transaction-IsInt64 id db h e =
    let s = scan-amount (select_one (transaction_has_id id) db.transactions) e in
    subst IsInt64 (sym s.2) (select_one-All _ (transaction_has_id id) db.transactions h s.1)

resolve_reference-amount :
    (id : Bytes) (now : Time) (tx : WagerTransaction) {tx' : WagerTransaction}
    → resolve_reference id now tx ≡ (tx', ok tt)
    → tx'.amount ≡ tx.amount
unfolding resolve_reference
resolve_reference-amount id now tx h = ground arith

module _ (env : Env) (keeps : KeepsBooks env) where
  resume_kind-Runs :
      (kind : Kind) (tx : WagerTransaction) (wl : Wallet) (r : WalletRow)
      (reference : WagerTransaction) (now : Time) (w : World)
      → Ready w
      → IsRead wl r w.db
      → IsInt64 tx.amount.minor_units
      → Runs w still Always (resume_kind env kind tx wl reference now)
  unfolding resume_kind
  resume_kind-Runs win tx wl r reference now w ready read fits =
      credit_and_settle-Runs env keeps tx wl r tx.amount now tx.id w ready read fits
  resume_kind-Runs refund tx wl r reference now w ready read fits =
      credit_and_settle-Runs env keeps tx wl r tx.amount now tx.id w ready read fits
  resume_kind-Runs rollback tx wl r reference now w ready read fits =
      if-Runs _ (debit_and_settle-Runs env keeps tx wl r tx.amount _ now tx.id w ready read fits)
        (credit_and_settle-Runs env keeps tx wl r tx.amount now tx.id w ready read fits)
  resume_kind-Runs _ tx wl r reference now w ready read fits = raise-Runs _ w ready

  forget_output-Runs :
      (m : Action Output) (w : World)
      → Runs w still Always m
      → Runs {A = Unit {0}} w still Always (do out ← m; pure tt)
  forget_output-Runs m w h = after_still m _ h λ out w1 r1 _ _. pure-Runs tt w1 r1

  conclude_at-Runs :
      (tx : WagerTransaction) (wl : Wallet) (r : WalletRow) (reference : WagerTransaction)
      (now : Time) (w : World)
      → Ready w
      → IsRead wl r w.db
      → IsInt64 tx.amount.minor_units
      → Runs w still Always (conclude_at env tx wl reference now)
  unfolding conclude_at resumed_reversal
  conclude_at-Runs tx wl r reference now w ready read fits =
      if-Runs _ (forget_output-Runs _ w (reject-Runs env keeps tx wl _ now tx.id w ready)) (
        after_still (resumed_reversal env tx.kind reference) _
          (if-Runs (is_reversal tx.kind) (forget-Runs (query-Runs env keeps _ w ready))
            (pure-Runs none w ready))
          λ earlier w1 r1 s1 _.
            option-Runs earlier _ _
              (after_still (method (resolve_reference reference.id now tx)) _ (method-Runs _ w1 r1)
                λ tx' w2 r2 s2 e. forget_output-Runs _ w2 (
                  resume_kind-Runs tx'.kind tx' wl r reference now w2 r2
                    (IsRead-Steps (IsRead-Steps read s1) s2)
                    (rw (resolve_reference-amount reference.id now tx e) fits)))
              (λ _. forget_output-Runs _ w1 (reject-Runs env keeps tx wl _ now tx.id w1 r1)))

  postpone-Runs :
      (tx : WagerTransaction) (w : World) → Ready w → Runs w still Always (postpone env tx)
  unfolding postpone
  postpone-Runs tx w ready =
      after_still (clock env) _ (clock-Runs env keeps w ready) λ now w1 r1 _ _.
        after_still (method _) _ (method-Runs _ w1 r1) λ tx' w2 r2 _ _.
          exec-Runs env keeps (update_transaction tx') w2 r2
            (λ db db' d e. update_transaction-Drift tx' db d.table e)

  with_found-Runs :
      (tx : WagerTransaction) (wl : Wallet) (r : WalletRow) (o : Option WagerTransaction)
      (w : World)
      → Ready w
      → IsRead wl r w.db
      → IsInt64 tx.amount.minor_units
      → Runs w still Always (with_found_reference env tx wl o)
  unfolding with_found_reference conclude
  with_found-Runs tx wl r none w ready read fits = postpone-Runs tx w ready
  with_found-Runs tx wl r (some reference) w ready read fits =
      if-Runs _
        (after_still (clock env) _ (clock-Runs env keeps w ready) λ now w1 r1 s1 _.
          conclude_at-Runs tx wl r reference now w1 r1 (IsRead-Steps read s1) fits)
        (postpone-Runs tx w ready)

  resume_pending-Runs :
      (tx : WagerTransaction) (w : World)
      → Ready w
      → IsInt64 tx.amount.minor_units
      → Runs w still Always (resume_pending env tx)
  unfolding resume_pending
  resume_pending-Runs tx w ready fits =
      after_still (query env (find_wallet tx.wallet_id)) _ (query-Runs env keeps _ w ready)
        λ wl w1 r1 s1 found.
          let (r, read) = find_wallet-IsRead tx.wallet_id w1.db r1.db found in
          after_still (query env _) _ (query-Runs env keeps _ w1 r1) λ reference w2 r2 s2 _.
            with_found-Runs tx wl r reference w2 r2 (IsRead-Steps read s2) fits

  -- A pending reference that the worker resumes leaves the books kept, whether it is settled,
  -- rejected, postponed or rolled back, provided that the other transactions keep them, that the
  -- wallets have different ids and int64 columns at first, and that the amounts of the stored
  -- transactions are int64.
  pub resume_pending_reference-Drift :
      (id : Bytes) (w : World)
      → IsTable w.base.wallets
      → HasAmounts w.base
      → Drift still w.base (resume_pending_reference env id w).1.base
  unfolding resume_pending_reference
  resume_pending_reference-Drift id w t has =
      let ready : Ready (record w { db = w.base }) = record { db = t; base = t } in
      uow_execute-Drift _ w (
        after_still (query env (find_transaction id)) _ (viewed-Runs env keeps _ _ ready)
          λ tx w1 r1 _ seen.
            if-Runs (is_pending_reference tx.status)
              (resume_pending-Runs tx w1 r1
                (find_transaction-IsInt64 id _ ((keeps w.tick w.base t).kept.amounts has) seen))
              (pure-Runs tt w1 r1))
