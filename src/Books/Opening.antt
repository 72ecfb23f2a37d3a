-- ===== src/Books/Opening.antt =====
-- A new wallet keeps the books (open_wallet.go): its balance begins as the sum of its ledger, which
-- is the OPENING entry or nothing.
use wager_ledger.Base.{
  pos, ◌-ℤ◌, ◌≤ℤ◌, IsInt64, int_laws, eq-parts, eqb_ℤ-eq, true, false, Bytes, str_eq, str_eq_sound,
  Bool-cases, none, List, [], ◌∷◌, ◌≡◌, refl, subst, arith, inl, inr,
}
use wager_ledger.Errors.{Result, ok, err}
use wager_ledger.Money.{Money, is_zero}
use wager_ledger.Wallet.{Wallet, Time, new_wallet}
use wager_ledger.Wagertx.{WagerTransaction, new_opening_transaction}
use wager_ledger.Ledger.{credit, new_entry}
use wager_ledger.Event.{Event}
use wager_ledger.Postgres.{
  WalletRow, Db, select_one, exists, wallet_has_id, wallet_row, wallet_checks, same_wallet,
  create_wallet, create_transaction, create_entry, create_outbox,
}
use wager_ledger.Usecase.Monad.{Env, World, Action, ◌>>=◌, lift, exec, clock, fresh, uow_execute}
use wager_ledger.Usecase.OpenWallet.{
  OpenInput, translated, record_event, record_opening, store_wallet, open_wallet,
}
use wager_ledger.Books.Kept.{Kept-same}
use wager_ledger.Books.Drift.{IsTable, row_of, Drift, Drift-refl, Drift-trans, still, only}
use wager_ledger.Books.Inserts.{create_transaction-Drift, create_outbox-Drift}
use wager_ledger.Books.Runs.{
  still_sum, KeepsBooks, Ready, Steps-Ready, Runs, Always, resume, sequence, after_still, same-Runs,
  pure-Runs, lift-Runs, clock-Runs, fresh-Runs, exec-Runs, uow_execute-Drift,
}
use wager_ledger.Books.Outcomes.{entry-Runs, new_entry-fields}
use wager_ledger.Books.Execution.{KeepsDrift}

no_such_wallet :
    (w : Wallet) (rs : List WalletRow)
    → exists (same_wallet (wallet_row w)) rs ≡ false
    → (exists (wallet_has_id w.id) rs ≡ false) × (select_one (wallet_has_id w.id) rs ≡ none)
unfolding exists select_one same_wallet wallet_row
no_such_wallet w [] h = (refl, refl)
no_such_wallet w (r ∷ rs) h = ground (arith, no_such_wallet w rs)

create_wallet-ok :
    (w : Wallet) (db : Db) {db' : Db}
    → create_wallet w db ≡ ok db'
    → (exists (same_wallet (wallet_row w)) db.wallets ≡ false)
      × (db' ≡ record db { wallets = wallet_row w ∷ db.wallets })
      × (pos 1 ≤ℤ w.version)
unfolding create_wallet wallet_row wallet_checks
create_wallet-ok w db h = (ground arith, ground arith, ground arith)

create_wallet-Drift :
    (w : Wallet) (db : Db) {db' : Db}
    → IsTable db.wallets
    → IsInt64 w.balance.minor_units
    → IsInt64 w.version
    → create_wallet w db ≡ ok db'
    → Drift (only w.id w.balance.minor_units) db db'
unfolding select_one wallet_row
create_wallet-Drift w db t fits_b fits_v h =
    let d = create_wallet-ok w db h in
    let absent = no_such_wallet w db.wallets d.0 in
    let row_absent : (k : Bytes) → str_eq w.id k ≡ true → row_of k db ≡ none =
      λ k same. subst (λ j. row_of j db ≡ none) (str_eq_sound w.id k same) absent.1 in
    rw d.1 (record {
      books = λ k. elim (Bool-cases (str_eq w.id k)) [
        | inl same ↦ rw (same, row_absent k same) (omega int_laws)
        | inr ne ↦ rw ne (omega int_laws)
      ];
      grows = λ k. elim (Bool-cases (str_eq w.id k)) [
        | inl same ↦ rw (same, row_absent k same) (omega (arith, d.2))
        | inr ne ↦ rw ne (omega arith)
      ];
      stable = λ k. elim (Bool-cases (str_eq w.id k)) [
        | inl same ↦
            rw (same, row_absent k same)
              (λ e. absurd (omega (arith, d.2, eq-parts (pos 0) w.version e)))
        | inr ne ↦ rw ne (λ e. refl)
      ];
      table = (absent.0, fits_b, fits_v, t);
      kept = Kept-same db _ refl refl refl;
    })

module _ (env : Env) (keeps : KeepsBooks env) where
  record_event-Runs :
      (make : Bytes → Event) (w : World) → Ready w → Runs w still Always (record_event env make)
  unfolding record_event
  record_event-Runs make w r = after_still (fresh env) _ (fresh-Runs env keeps w r) λ id w1 r1 _ _.
      after_still (clock env) _ (clock-Runs env keeps w1 r1) λ now w2 r2 _ _.
        exec-Runs env keeps (create_outbox (make id) now) w2 r2
          (λ db db' d e. create_outbox-Drift (make id) now db d.table e)

  opening-amount :
      (id wid pl : Bytes) (amount : Money) (now : Time) {tx : WagerTransaction}
      → new_opening_transaction id wid pl amount now ≡ ok tx
      → IsInt64 amount.minor_units
      → IsInt64 tx.amount.minor_units
  unfolding new_opening_transaction
  opening-amount id wid pl amount now h fits = ground (arith, fits)

  record_opening-Runs :
      (input : OpenInput) (wl : Wallet) (now : Time) (w : World)
      → Ready w
      → IsInt64 input.initial_balance.minor_units
      → Runs w
          (only wl.id (pos 0 -ℤ input.initial_balance.minor_units))
          Always
          (record_opening env input wl now)
  unfolding record_opening
  record_opening-Runs input wl now w r fits =
      after_still (fresh env) _ (fresh-Runs env keeps w r) λ tx_id w1 r1 _ _.
        after_still (lift _) _ (lift-Runs _ w1 r1) λ tx w2 r2 _ same.
          after_still (exec env (create_transaction tx)) _
            (exec-Runs env keeps (create_transaction tx) w2 r2 (λ db db' d e.
              create_transaction-Drift tx db d.table (opening-amount _ _ _ _ _ same fits) e))
            λ _ w3 r3 _ _. after_still (lift _) _ (lift-Runs _ w3 r3) λ zero w4 r4 _ _.
              after_still (fresh env) _ (fresh-Runs env keeps w4 r4) λ entry_id w5 r5 _ _.
                after_still
                  (lift (
                    new_entry entry_id wl.id tx.id credit input.initial_balance zero wl.balance
                      now))
                  _ (lift-Runs _ w5 r5)
                  λ entry w6 r6 _ made.
                    sequence {g = still} (exec env (create_entry entry)) _ (λ k. omega int_laws)
                      (entry-Runs env keeps entry wl.id credit input.initial_balance w6 r6 (
                        new_entry-fields entry_id wl.id tx.id credit input.initial_balance zero
                          wl.balance now made))
                      λ _ w7 s7 _.
                        after_still (record_event env _) _ (record_event-Runs _ w7 (Steps-Ready s7))
                          λ _ w8 r8 _ _. record_event-Runs _ w8 r8

  store_wallet-Runs :
      (input : OpenInput) (wl : Wallet) (now : Time) (w : World)
      → Ready w
      → wl.balance ≡ input.initial_balance
      → IsInt64 wl.balance.minor_units
      → IsInt64 wl.version
      → Runs w still Always (store_wallet env input wl now)
  unfolding store_wallet is_zero
  store_wallet-Runs input wl now w r balance fits_b fits_v =
      let n = input.initial_balance.minor_units in
      sequence {f = only wl.id n} {g = only wl.id (pos 0 -ℤ n)} (exec env (create_wallet wl)) _
        (λ k. elim (Bool-cases (str_eq wl.id k)) [
          | inl same ↦ rw same (omega int_laws)
          | inr ne ↦ rw ne (omega int_laws)
        ])
        (exec-Runs env keeps (create_wallet wl) w r (λ db db' d e.
          subst (λ (m : Money). Drift (only wl.id m.minor_units) db db') balance
            (create_wallet-Drift wl db d.table fits_b fits_v e)))
        λ _ w1 s1 _. elim (Bool-cases (is_zero input.initial_balance)) [
          | inl nothing ↦ rw nothing (
              same-Runs
                (λ k. elim (Bool-cases (str_eq wl.id k)) [
                  | inl same ↦
                      rw same (omega (int_laws, eq-parts n (pos 0) (eqb_ℤ-eq n (pos 0) nothing)))
                  | inr ne ↦ rw ne refl
                ])
                (pure-Runs tt w1 (Steps-Ready s1)))
          | inr some_money ↦ rw some_money (
              record_opening-Runs input wl now w1 (Steps-Ready s1)
                (subst (λ (m : Money). IsInt64 m.minor_units) balance fits_b))
        ]

new_wallet-fields :
    (id player_id : Bytes) (balance : Money) (now : Time) {wl : Wallet}
    → new_wallet id player_id balance now ≡ ok wl
    → (wl.balance ≡ balance) × (wl.version ≡ pos 1)
unfolding new_wallet
new_wallet-fields id player_id balance now h = ground arith

module _ {A B : Type 0} where
  resume-Drift :
      (k : A → Action B) (b : Db) (x : Result A × World)
      → Drift still b x.1.base
      → ((a : A) → KeepsDrift (k a))
      → Drift still b (resume k x).1.base
  resume-Drift k b (ok a, w) d h = Drift-trans d (h a w d.table) still_sum
  resume-Drift k b (err e, w) d h = d

  -- One part after another, where what follows relies on no fact about the first.
  bind-Drift :
      (m : Action A) (k : A → Action B)
      → KeepsDrift m
      → ((a : A) → KeepsDrift (k a))
      → KeepsDrift (m >>= k)
  unfolding ◌>>=◌
  bind-Drift m k hm hk w t = resume-Drift k w.base (m w) (hm w t) hk

  lift-Drift :
      (x : Result A) (k : A → Action B)
      → ((a : A) → x ≡ ok a → KeepsDrift (k a))
      → KeepsDrift (lift x >>= k)
  unfolding ◌>>=◌
  lift-Drift (ok a) k h w t = h a refl w t
  lift-Drift (err e) k h w t = Drift-refl w.base t

translated-Drift :
    {A : Type 0} (b : Db) (x : Result A × World)
    → Drift still b x.1.base
    → Drift still b (translated x).1.base
unfolding translated
translated-Drift b (ok a, w) d = d
translated-Drift b (err e, w) d = d

module _ (env : Env) (keeps : KeepsBooks env) where
  clock-Drift : KeepsDrift (clock env)
  unfolding clock
  clock-Drift w t = Drift-refl w.base t

  fresh-Drift : KeepsDrift (fresh env)
  unfolding fresh
  fresh-Drift w t = Drift-refl w.base t

  -- Opening a wallet leaves the books kept, whether it is opened or refused, provided that the other
  -- transactions keep them, that the wallets have different ids and int64 columns at first, and that
  -- the initial balance is an int64: the new wallet's balance is the sum
  -- of its new entries.
  pub open_wallet-Drift :
      (input : OpenInput) (w : World)
      → IsTable w.base.wallets
      → IsInt64 input.initial_balance.minor_units
      → Drift still w.base (open_wallet env input w).1.base
  unfolding open_wallet
  open_wallet-Drift input w t fits =
      bind-Drift (clock env) _ clock-Drift
        (λ now. bind-Drift (fresh env) _ fresh-Drift (λ id.
          lift-Drift (new_wallet id input.player_id input.initial_balance now) _ (λ wl made.
            let f = new_wallet-fields id input.player_id input.initial_balance now made in
            bind-Drift
              (λ (world : World). translated (uow_execute (store_wallet env input wl now) world)) _
              (λ v tv. translated-Drift v.base (uow_execute (store_wallet env input wl now) v) (
                uow_execute-Drift (store_wallet env input wl now) v (
                  store_wallet-Runs env keeps input wl now (record v { db = v.base })
                    (record { db = tv; base = tv }) f.0 (rw f.0 fits) (rw f.1 (ground arith)))))
              (λ _ v tv. Drift-refl v.base tv))))
        w t
