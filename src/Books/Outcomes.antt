-- ===== src/Books/Outcomes.antt =====
-- The ways in which an attempt ends keep the books: `pendingReference`, `reject`, `settle`, the end
-- of a LOSS (process_wager_transaction.go).
use wager_ledger.Base.{
  ℤ, pos, ◌+ℤ◌, ◌-ℤ◌, ◌≤ℤ◌, ◌<ℤ◌, IsInt64, int_laws, Bytes, str_eq, Bool-cases, some, ◌≡◌, subst,
  ◌∙◌, arith, inl, inr,
}
use mathlib.Core.Path.{ap₂}
use wager_ledger.Errors.{ok}
use wager_ledger.Money.{Money}
use wager_ledger.Wallet.{Wallet, Time}
use wager_ledger.Wagertx.{WagerTransaction, mark_pending_reference, mark_rejected, mark_processed}
use wager_ledger.Ledger.{Direction, debit, credit, other, Entry, new_entry}
use wager_ledger.Event.{Event}
use wager_ledger.Postgres.{
  WalletRow, entry_change, entry_row, save_wallet, create_entry, update_transaction, create_outbox,
}
use wager_ledger.Usecase.Monad.{Env, World, lift, method, exec, clock, fresh}
use wager_ledger.Usecase.Outcomes.{Input, emit, park, reject, settle, settle_loss}
use wager_ledger.Books.Drift.{Drift, Held, Held-Drift, still, only}
use wager_ledger.Books.Writes.{save_wallet-Drift}
use wager_ledger.Books.Inserts.{update_transaction-Drift, create_outbox-Drift, create_entry-Drift}
use wager_ledger.Books.Runs.{
  KeepsBooks, Ready, Steps-Ready, Runs, Always, sequence, after_still, pure-Runs, lift-Runs,
  method-Runs, fresh-Runs, clock-Runs, exec-Runs,
}

-- The change of a wallet's sum that an entry makes.
abbrev pub change : Direction → ℤ → ℤ
change credit n = n
change debit n = pos 0 -ℤ n
change (other s) n = pos 0 -ℤ n

entry_change-row :
    (e : Entry) → entry_change (entry_row e) ≡ change e.direction e.amount.minor_units
unfolding entry_change entry_row
entry_change-row e = ground arith

pub new_entry-fields :
    (id wallet_id transaction_id : Bytes) (direction : Direction) (amount before after : Money)
    (now : Time) {e : Entry}
    → new_entry id wallet_id transaction_id direction amount before after now ≡ ok e
    → (e.wallet_id ≡ wallet_id) × (e.direction ≡ direction) × (e.amount ≡ amount)
unfolding new_entry
new_entry-fields id wallet_id transaction_id direction amount before after now h =
    (ground arith, ground arith, ground arith)

only-cancel : (id : Bytes) (n : ℤ) (k : Bytes) → only id n k +ℤ only id (pos 0 -ℤ n) k ≡ still k
only-cancel id n k = elim (Bool-cases (str_eq id k)) [
  | inl same ↦ rw same (omega int_laws)
  | inr ne ↦ rw ne (omega int_laws)
]

module _ (env : Env) (keeps : KeepsBooks env) where
  update-Runs :
      (tx : WagerTransaction) (w : World)
      → Ready w
      → Runs w still Always (exec env (update_transaction tx))
  update-Runs tx w r =
      exec-Runs env keeps (update_transaction tx) w r
        (λ db db' d e. update_transaction-Drift tx db d.table e)

  emit-Runs : (make : Bytes → Event) (w : World) → Ready w → Runs w still Always (emit env make)
  unfolding emit
  emit-Runs make w r = after_still (fresh env) _ (fresh-Runs env keeps w r) λ id w1 r1 _ _.
      after_still (clock env) _ (clock-Runs env keeps w1 r1) λ now w2 r2 _ _.
        exec-Runs env keeps (create_outbox (make id) now) w2 r2
          (λ db db' d e. create_outbox-Drift (make id) now db d.table e)

  pub park-Runs :
      (tx : WagerTransaction) (wl : Wallet) (now : Time) (cid : Bytes) (w : World)
      → Ready w
      → Runs w still Always (park env tx wl now cid)
  unfolding park
  park-Runs tx wl now cid w r =
      after_still (method (mark_pending_reference now tx)) _ (method-Runs _ w r) λ tx' w1 r1 _ _.
        after_still (exec env (update_transaction tx')) _ (update-Runs tx' w1 r1) λ _ w2 r2 _ _.
          after_still (emit env _) _ (emit-Runs _ w2 r2) λ _ w3 r3 _ _. pure-Runs _ w3 r3

  pub reject-Runs :
      (tx : WagerTransaction) (wl : Wallet) (code : Bytes) (now : Time) (cid : Bytes) (w : World)
      → Ready w
      → Runs w still Always (reject env tx wl code now cid)
  unfolding reject
  reject-Runs tx wl code now cid w r =
      after_still (method (mark_rejected code (some wl.balance) now tx)) _ (method-Runs _ w r)
        λ tx' w1 r1 _ _.
          after_still (exec env (update_transaction tx')) _ (update-Runs tx' w1 r1) λ _ w2 r2 _ _.
            after_still (emit env _) _ (emit-Runs _ w2 r2) λ _ w3 r3 _ _. pure-Runs _ w3 r3

  pub settle_loss-Runs :
      (input : Input) (tx : WagerTransaction) (wl : Wallet) (now : Time) (cid : Bytes) (w : World)
      → Ready w
      → Runs w still Always (settle_loss env input tx wl now cid)
  unfolding settle_loss
  settle_loss-Runs input tx wl now cid w r =
      after_still (method (mark_processed wl.balance now tx)) _ (method-Runs _ w r) λ tx' w1 r1 _ _.
        after_still (exec env (update_transaction tx')) _ (update-Runs tx' w1 r1) λ _ w2 r2 _ _.
          after_still (emit env _) _ (emit-Runs _ w2 r2) λ _ w3 r3 _ _. pure-Runs _ w3 r3

  pub entry-Runs :
      (e : Entry) (id : Bytes) (direction : Direction) (amount : Money) (w : World)
      → Ready w
      → (e.wallet_id ≡ id) × (e.direction ≡ direction) × (e.amount ≡ amount)
      → Runs w
          (only id (pos 0 -ℤ change direction amount.minor_units))
          Always
          (exec env (create_entry e))
  entry-Runs e id direction amount w r fields =
      exec-Runs env keeps (create_entry e) w r (λ db db' d h.
        let n = change direction amount.minor_units in
        let c : entry_change (entry_row e) ≡ n =
          entry_change-row e
          ∙ ap₂ (λ dir (m : Money). change dir m.minor_units) fields.1 fields.2 in
        subst (λ k. Drift (only k (pos 0 -ℤ n)) db db') fields.0
          (create_entry-Drift e (pos 0 -ℤ n) db d.table (rw c (omega int_laws)) h))

  -- A settlement moves the balance that was read and the ledger by the same amount, or fails: `r` is
  -- the row that was read, and `wl` the wallet with its movement made.
  pub settle-Runs :
      (tx : WagerTransaction) (wl : Wallet) (r : WalletRow) (before : Money) (direction : Direction)
      (amount : Money) (now : Time) (cid : Bytes) (w : World)
      → Ready w
      → Held r w.db
      → wl.id ≡ r.id
      → IsInt64 wl.balance.minor_units
      → IsInt64 wl.version
      → (pos 1 ≤ℤ wl.version → r.version <ℤ wl.version)
      → wl.balance.minor_units ≡ r.balance_minor_units +ℤ change direction amount.minor_units
      → Runs w still Always (settle env tx wl r.version before direction amount now cid)
  unfolding settle
  settle-Runs tx wl r before direction amount now cid w ready held id fits_b fits_v later moved =
      let n = change direction amount.minor_units in
      sequence {f = only r.id n} {g = only r.id (pos 0 -ℤ n)} (exec env (save_wallet wl r.version))
        _ (λ k. only-cancel r.id n k)
        (exec-Runs env keeps (save_wallet wl r.version) w ready λ db db' d h.
          save_wallet-Drift wl r n db d.table (Held-Drift held d) id fits_b fits_v later moved h)
        λ _ w1 s1 _.
          after_still (fresh env) _ (fresh-Runs env keeps w1 (Steps-Ready s1)) λ entry_id w2 r2 _ _.
            after_still
              (lift (new_entry entry_id wl.id tx.id direction amount before wl.balance now)) _
              (lift-Runs _ w2 r2)
              λ entry w3 r3 _ made.
                let fields =
                  new_entry-fields entry_id wl.id tx.id direction amount before wl.balance now
                    made in
                sequence {f = only r.id (pos 0 -ℤ n)} {g = still} (exec env (create_entry entry)) _
                  (λ k. omega int_laws)
                  (entry-Runs entry r.id direction amount w3 r3 (fields.0 ∙ id, fields.1, fields.2))
                  λ _ w4 s4 _.
                    after_still (method (mark_processed wl.balance now tx)) _
                      (method-Runs _ w4 (Steps-Ready s4))
                      λ tx' w5 r5 _ _.
                        after_still (exec env (update_transaction tx')) _ (update-Runs tx' w5 r5)
                          λ _ w6 r6 _ _.
                            after_still (emit env _) _ (emit-Runs _ w6 r6) λ _ w7 r7 _ _.
                              after_still (emit env _) _ (emit-Runs _ w7 r7)
                                λ _ w8 r8 _ _. pure-Runs _ w8 r8
