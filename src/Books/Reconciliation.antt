-- ===== src/Books/Reconciliation.antt =====
-- What a reconciliation reports (reconcile_wallet.go).
use wager_ledger.Base.{
  ℤ, pos, ◌-ℤ◌, IsInt64, int_laws, eq-parts, eq_of_parts, eqb_ℤ-eq, true, Bytes, List, [], ◌∷◌, ◌≡◌,
  ◌↔◌, refl, subst, arith,
}
use wager_ledger.Errors.{ok-injective, Result, ok, err, ◌>>=◌}
use wager_ledger.Money.{Money, sub, is_zero, zero_money, from_minor_units}
use wager_ledger.Money.Arithmetic.{sub_int64_exact}
use wager_ledger.Wallet.{Wallet}
use wager_ledger.Postgres.{EntryRow, Db, find_wallet, entry_sum, count_by_wallet, sum_by_wallet}
use wager_ledger.Usecase.Reconcile.{ReconcileOutput, calculated_balance, reconcile}
use wager_ledger.Books.Drift.{IsTable, row_of, balance_of}
use wager_ledger.Books.Movements.{find_wallet-balance}

entry_sum-no_entries :
    (id : Bytes) (rs : List EntryRow) → count_by_wallet id rs ≡ 0 → entry_sum id rs ≡ pos 0
unfolding entry_sum count_by_wallet
entry_sum-no_entries id [] h = refl
entry_sum-no_entries id (r ∷ rs) h = ground (arith, entry_sum-no_entries id rs)

calculated_balance-sum :
    (id : Bytes) (w : Wallet) (db : Db) {m : Money}
    → calculated_balance id w db ≡ ok m
    → (m.minor_units ≡ entry_sum id db.entries) × IsInt64 m.minor_units
unfolding calculated_balance zero_money sum_by_wallet from_minor_units
calculated_balance-sum id w db h = ground (arith, entry_sum-no_entries id db.entries)

sub-difference :
    (a b : Money) {d : Money}
    → IsInt64 a.minor_units
    → IsInt64 b.minor_units
    → sub a b ≡ ok d
    → d.minor_units ≡ a.minor_units -ℤ b.minor_units
unfolding sub
sub-difference a b ha hb h = ground (arith, sub_int64_exact a.minor_units b.minor_units ha hb)

is_zero-difference : (d : Money) (a b : ℤ) → d.minor_units ≡ a -ℤ b → ((is_zero d ≡ true) ↔ (a ≡ b))
unfolding is_zero
is_zero-difference d a b h = (
  λ e. eq_of_parts a b (
      omega (
        int_laws,
        eq-parts _ _ h,
        eq-parts d.minor_units (pos 0) (eqb_ℤ-eq d.minor_units (pos 0) e),
      )),
  λ e.
      let none_left : d.minor_units ≡ pos 0 =
        eq_of_parts d.minor_units (pos 0) (omega (int_laws, eq-parts _ _ h, eq-parts a b e)) in
      rw none_left refl,
)

bind-ok :
    {A B : Type 0} (m : Result A) (k : A → Result B) {b : B}
    → (m >>= k) ≡ ok b
    → (a : A) × (m ≡ ok a) × (k a ≡ ok b)
bind-ok (ok a) k h = (a, refl, h)
bind-ok (err e) k h = absurd (cc)

-- Once a reconciliation of tables whose wallets have different ids and int64 columns has returned
-- its report, the difference in it is exact: the stored balance
-- less the sum of the wallet's ledger entries, without overflow. It reports the wallet as consistent
-- exactly when the two are equal.
pub reconcile_exact :
    (id : Bytes) (db : Db) {out : ReconcileOutput}
    → IsTable db.wallets
    → reconcile id db ≡ ok out
    → (out.difference.minor_units ≡ balance_of (row_of id db) -ℤ entry_sum id db.entries)
      × ((out.consistent ≡ true) ↔ (balance_of (row_of id db) ≡ entry_sum id db.entries))
unfolding reconcile
reconcile_exact id db {out} t h =
    let (w, found, h1) = bind-ok (find_wallet id db) _ h in
    let (m, summed, h2) = bind-ok (calculated_balance id w db) _ h1 in
    let (d, taken, h3) = bind-ok (sub w.balance m) _ h2 in
    let balance = find_wallet-balance id db t found in
    let sum = calculated_balance-sum id w db summed in
    let exact : d.minor_units ≡ balance_of (row_of id db) -ℤ entry_sum id db.entries =
      rw (balance.0, ← sum.0) (sub-difference w.balance m balance.1 sum.1 taken) in
    subst
      (λ (o : ReconcileOutput).
        (o.difference.minor_units ≡ balance_of (row_of id db) -ℤ entry_sum id db.entries)
        × ((o.consistent ≡ true) ↔ (balance_of (row_of id db) ≡ entry_sum id db.entries)))
      (ok-injective h3) (exact, is_zero-difference d _ _ exact)
