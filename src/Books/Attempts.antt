-- ===== src/Books/Attempts.antt =====
-- Every attempt at a wager transaction keeps the books (process_wager_transaction.go, `attempt`).
use wager_ledger.Base.{
  ℤ, pos, ◌+ℤ◌, IsInt64, wrap64, wrap64-IsInt64, Bool, true, false, Bytes, Option, none, some,
  if◌then◌else◌, arith, ◌≡◌, refl, sym, subst, ◌∙◌,
}
use wager_ledger.Errors.{wallet, WalletError, Result, ok, err}
use wager_ledger.Money.{Money}
use wager_ledger.Wallet.{Wallet, Time}
use wager_ledger.Wallet
use wager_ledger.Wagertx.{
  WagerTransaction, Kind, bet, win, loss, refund, rollback, is_reversal, resolve_reference,
  new_external_transaction,
}
use wager_ledger.Ledger.{Direction, debit, credit}
use wager_ledger.Postgres.{WalletRow, find_wallet, create_transaction}
use wager_ledger.Usecase.Monad.{
  Env, World, Action, raise_if, lift, method, query, exec, clock, fresh,
}
use wager_ledger.Usecase.Outcomes.{Input, settle}
use wager_ledger.Usecase.Process.{
  debited, debit_and_settle, credit_and_settle, apply_kind, earlier_reversal,
  with_processed_reference, with_reference, decide, attempt_new,
}
use wager_ledger.Books.Drift.{Held-Drift, still}
use wager_ledger.Books.Inserts.{create_transaction-Drift}
use wager_ledger.Books.Movements.{
  IsRead, IsMoved, find_wallet-IsRead, debit-IsMoved, credit-IsMoved, wrap64_grows,
}
use wager_ledger.Books.Runs.{
  KeepsBooks, Ready, Steps, Runs, Always, forget-Runs, after_still, pure-Runs, raise-Runs,
  raise_if-Runs, lift-Runs, method-Runs, fresh-Runs, clock-Runs, query-Runs, exec-Runs,
}
use wager_ledger.Books.Outcomes.{change, park-Runs, reject-Runs, settle-Runs, settle_loss-Runs}

pub if-Runs :
    {A : Type 0} {w : World} {f : Bytes → ℤ} {F : A → World → Type 0} (c : Bool) {m n : Action A}
    → Runs w f F m
    → Runs w f F n
    → Runs w f F (if c then m else n)
if-Runs true h k = h
if-Runs false h k = k

pub option-Runs :
    {A B : Type 0} {w : World} {f : Bytes → ℤ} {F : B → World → Type 0} (o : Option A)
    (m : Action B) (k : A → Action B)
    → Runs w f F m
    → ((a : A) → Runs w f F (k a))
    → Runs w f F (elim o [ none ↦ m | some a ↦ k a ])
option-Runs none m k h g = h
option-Runs (some a) m k h g = g a

pub IsRead-Steps :
    {wl : Wallet} {r : WalletRow} {f : Bytes → ℤ} {w w' : World}
    → IsRead wl r w.db
    → Steps f w w'
    → IsRead wl r w'.db
IsRead-Steps h s = record {
  id = h.id;
  version = h.version;
  balance = h.balance;
  positive = h.positive;
  balance_fits = h.balance_fits;
  version_fits = h.version_fits;
  held = Held-Drift h.held s.view;
}

module _ (env : Env) (keeps : KeepsBooks env) where
  settle_read-Runs :
      (tx : WagerTransaction) (wl wl' : Wallet) (r : WalletRow) (before : Money)
      (direction : Direction) (amount : Money) (now : Time) (cid : Bytes) (w : World)
      → Ready w
      → IsRead wl r w.db
      → IsMoved wl wl' (change direction amount.minor_units)
      → Runs w still Always (settle env tx wl' wl.version before direction amount now cid)
  settle_read-Runs tx wl wl' r before direction amount now cid w ready read moved =
      let version : wl'.version ≡ wrap64 (r.version +ℤ pos 1) = rw (← read.version) moved.version in
      subst (λ v. Runs w still Always (settle env tx wl' v before direction amount now cid))
        (sym read.version)
        (settle-Runs env keeps tx wl' r before direction amount now cid w ready read.held
          (moved.id ∙ read.id) moved.balance_fits (rw version (wrap64-IsInt64 (r.version +ℤ pos 1)))
          (rw version (wrap64_grows r.version read.version_fits))
          (rw (← read.balance) moved.balance))

  debited-Runs :
      (tx : WagerTransaction) (wl : Wallet) (r : WalletRow) (amount : Money) (code : Bytes)
      (now : Time) (cid : Bytes) (w : World) (x : Wallet × Result (Unit {0}))
      → Ready w
      → IsRead wl r w.db
      → IsInt64 amount.minor_units
      → Wallet.debit wl amount now ≡ x
      → Runs w still Always (debited env tx wl wl.version wl.balance amount code now cid x)
  unfolding debited
  debited-Runs tx wl r amount code now cid w (wl', ok u) ready read fits e =
      settle_read-Runs tx wl wl' r wl.balance debit amount now cid w ready read
        (debit-IsMoved wl amount now (rw read.balance read.balance_fits) fits e)
  debited-Runs tx wl r amount code now cid w (wl', err (wallet WalletError.insufficient_balance))
        ready read fits e =
      reject-Runs env keeps tx wl' code now cid w ready
  debited-Runs tx wl r amount code now cid w (wl', err er) ready read fits e = raise-Runs er w ready

  pub debit_and_settle-Runs :
      (tx : WagerTransaction) (wl : Wallet) (r : WalletRow) (amount : Money) (code : Bytes)
      (now : Time) (cid : Bytes) (w : World)
      → Ready w
      → IsRead wl r w.db
      → IsInt64 amount.minor_units
      → Runs w still Always (debit_and_settle env tx wl amount code now cid)
  unfolding debit_and_settle
  debit_and_settle-Runs tx wl r amount code now cid w ready read fits =
      debited-Runs tx wl r amount code now cid w (Wallet.debit wl amount now) ready read fits refl

  pub credit_and_settle-Runs :
      (tx : WagerTransaction) (wl : Wallet) (r : WalletRow) (amount : Money) (now : Time)
      (cid : Bytes) (w : World)
      → Ready w
      → IsRead wl r w.db
      → IsInt64 amount.minor_units
      → Runs w still Always (credit_and_settle env tx wl amount now cid)
  unfolding credit_and_settle
  credit_and_settle-Runs tx wl r amount now cid w ready read fits =
      after_still (method (Wallet.credit wl amount now)) _ (method-Runs _ w ready) λ wl' w1 r1 s1 e.
        settle_read-Runs tx wl wl' r wl.balance credit amount now cid w1 r1 (IsRead-Steps read s1)
          (credit-IsMoved wl amount now (rw read.balance read.balance_fits) fits e)

  apply_kind-Runs :
      (kind : Kind) (input : Input) (tx : WagerTransaction) (wl : Wallet) (r : WalletRow)
      (reference : Option WagerTransaction) (now : Time) (cid : Bytes) (w : World)
      → Ready w
      → IsRead wl r w.db
      → IsInt64 input.amount.minor_units
      → Runs w still Always (apply_kind env kind input tx wl reference now cid)
  unfolding apply_kind
  apply_kind-Runs bet input tx wl r reference now cid w ready read fits =
      debit_and_settle-Runs tx wl r input.amount _ now cid w ready read fits
  apply_kind-Runs win input tx wl r reference now cid w ready read fits =
      credit_and_settle-Runs tx wl r input.amount now cid w ready read fits
  apply_kind-Runs refund input tx wl r reference now cid w ready read fits =
      credit_and_settle-Runs tx wl r input.amount now cid w ready read fits
  apply_kind-Runs rollback input tx wl r none now cid w ready read fits = raise-Runs _ w ready
  apply_kind-Runs rollback input tx wl r (some reference) now cid w ready read fits =
      if-Runs _ (debit_and_settle-Runs tx wl r input.amount _ now cid w ready read fits)
        (credit_and_settle-Runs tx wl r input.amount now cid w ready read fits)
  apply_kind-Runs loss input tx wl r reference now cid w ready read fits =
      settle_loss-Runs env keeps input tx wl now cid w ready
  apply_kind-Runs _ input tx wl r reference now cid w ready read fits = raise-Runs _ w ready

  earlier_reversal-Runs :
      (kind : Kind) (reference : WagerTransaction) (w : World)
      → Ready w
      → Runs w still Always (earlier_reversal env kind reference)
  unfolding earlier_reversal
  earlier_reversal-Runs kind reference w ready =
      if-Runs (is_reversal kind) (forget-Runs (query-Runs env keeps _ w ready))
        (pure-Runs none w ready)

  with_processed_reference-Runs :
      (kind : Kind) (input : Input) (tx : WagerTransaction) (wl : Wallet) (r : WalletRow)
      (reference : WagerTransaction) (now : Time) (cid : Bytes) (w : World)
      → Ready w
      → IsRead wl r w.db
      → IsInt64 input.amount.minor_units
      → Runs w still Always (with_processed_reference env kind input tx wl reference now cid)
  unfolding with_processed_reference
  with_processed_reference-Runs kind input tx wl r reference now cid w ready read fits =
      if-Runs _ (reject-Runs env keeps tx wl _ now cid w ready) (
        after_still (earlier_reversal env kind reference) _
          (earlier_reversal-Runs kind reference w ready)
          λ earlier w1 r1 s1 _.
            option-Runs earlier _ _
              (after_still (method (resolve_reference reference.id now tx)) _ (method-Runs _ w1 r1)
                λ tx' w2 r2 s2 _.
                  apply_kind-Runs kind input tx' wl r (some reference) now cid w2 r2
                    (IsRead-Steps (IsRead-Steps read s1) s2) fits)
              (λ _. reject-Runs env keeps tx wl _ now cid w1 r1))

  with_reference-Runs :
      (kind : Kind) (input : Input) (tx : WagerTransaction) (wl : Wallet) (r : WalletRow)
      (now : Time) (cid : Bytes) (reference : Option WagerTransaction) (w : World)
      → Ready w
      → IsRead wl r w.db
      → IsInt64 input.amount.minor_units
      → Runs w still Always (with_reference env kind input tx wl now cid reference)
  unfolding with_reference
  with_reference-Runs kind input tx wl r now cid none w ready read fits =
      park-Runs env keeps tx wl now cid w ready
  with_reference-Runs kind input tx wl r now cid (some reference) w ready read fits =
      if-Runs _
        (with_processed_reference-Runs kind input tx wl r reference now cid w ready read fits)
        (if-Runs _ (reject-Runs env keeps tx wl _ now cid w ready)
          (park-Runs env keeps tx wl now cid w ready))

  decide-Runs :
      (kind : Kind) (input : Input) (tx : WagerTransaction) (wl : Wallet) (r : WalletRow)
      (now : Time) (cid : Bytes) (w : World)
      → Ready w
      → IsRead wl r w.db
      → IsInt64 input.amount.minor_units
      → Runs w still Always (decide env kind input tx wl now cid)
  unfolding decide
  decide-Runs kind input tx wl r now cid w ready read fits =
      if-Runs _ (reject-Runs env keeps tx wl _ now cid w ready) (
        if-Runs _ (apply_kind-Runs kind input tx wl r none now cid w ready read fits) (
          after_still (query env _) _ (query-Runs env keeps _ w ready) λ reference w1 r1 s1 _.
            with_reference-Runs kind input tx wl r now cid reference w1 r1 (IsRead-Steps read s1)
              fits))

  new_external-amount :
      (id p x k hash wid pl rd g : Bytes) (kind : Kind) (amount : Money) (ref : Bytes) (now : Time)
      {tx : WagerTransaction}
      → new_external_transaction id p x k hash wid pl rd g kind amount ref now ≡ ok tx
      → IsInt64 amount.minor_units
      → IsInt64 tx.amount.minor_units
  unfolding new_external_transaction
  new_external-amount id p x k hash wid pl rd g kind amount ref now h fits = ground (arith, fits)

  pub attempt_new-Runs :
      (input : Input) (kind : Kind) (hash : Bytes) (w : World)
      → Ready w
      → IsInt64 input.amount.minor_units
      → Runs w still Always (attempt_new env input kind hash)
  unfolding attempt_new
  attempt_new-Runs input kind hash w ready fits =
      after_still (query env (find_wallet input.wallet_id)) _ (query-Runs env keeps _ w ready)
        λ wl w1 r1 s1 found.
          let (r, read) = find_wallet-IsRead input.wallet_id w1.db r1.db found in
          after_still (raise_if _ _) _ (raise_if-Runs _ _ w1 r1) λ _ w2 r2 s2 _.
            after_still (clock env) _ (clock-Runs env keeps w2 r2) λ now w3 r3 s3 _.
              after_still (fresh env) _ (fresh-Runs env keeps w3 r3) λ id w4 r4 s4 _.
                after_still (lift _) _ (lift-Runs _ w4 r4) λ tx w5 r5 s5 same.
                  after_still (exec env (create_transaction tx)) _
                    (exec-Runs env keeps (create_transaction tx) w5 r5 (λ db db' d e.
                      create_transaction-Drift tx db d.table
                        (new_external-amount _ _ _ _ _ _ _ _ _ _ _ _ _ same fits) e))
                    λ _ w6 r6 s6 _.
                      decide-Runs kind input tx wl r now tx.id w6 r6
                        (IsRead-Steps
                          (IsRead-Steps (IsRead-Steps (IsRead-Steps (IsRead-Steps read s2) s3) s4)
                            s5)
                          s6)
                        fits
