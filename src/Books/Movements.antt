-- ===== src/Books/Movements.antt =====
-- A wallet that was read, and its movement, as `settle` needs them (wallet.go and
-- wallet_repository.go).
use wager_ledger.Base.{
  ℤ, pos, negsuc, ◌+ℤ◌, ◌-ℤ◌, ◌≤ℤ◌, ◌<ℤ◌, IsInt64, wrap64, int_laws, Bytes, str_eq, Bool-cases,
  Option, none, some, List, [], ◌∷◌, ◌≡◌, refl, sym, arith, inl, inr, subst,
}
use wager_ledger.Errors.{ok}
use wager_ledger.Money.{Money, add, sub, from_minor_units}
use wager_ledger.Money.Arithmetic.{sub_int64_exact, add_int64_exact}
use wager_ledger.Wallet.{Wallet, Time, debit, credit, rehydrate}
use wager_ledger.Postgres.{WalletRow, Db, select_one, wallet_has_id, find_wallet, scan_wallet}
use wager_ledger.Books.Drift.{IsTable, row_of, balance_of, Held}
use wager_ledger.Books.Writes.{select_one-id}

-- `wl` is what the row `r` of the tables `db` was read as.
pub record IsRead (wl : Wallet) (r : WalletRow) (db : Db) : Type 0 where
  pub id : wl.id ≡ r.id
  pub version : wl.version ≡ r.version
  pub balance : wl.balance.minor_units ≡ r.balance_minor_units
  pub positive : pos 1 ≤ℤ r.version
  pub balance_fits : IsInt64 r.balance_minor_units
  pub version_fits : IsInt64 r.version
  pub held : Held r db

select_one-IsInt64 :
    (k : Bytes) (rs : List WalletRow) {r : WalletRow}
    → IsTable rs
    → select_one (wallet_has_id k) rs ≡ some r
    → IsInt64 r.balance_minor_units × IsInt64 r.version
unfolding select_one
select_one-IsInt64 k [] t h = cc
select_one-IsInt64 k (s ∷ rs) {r} t h = elim (Bool-cases (str_eq s.id k)) [
  | inl here ↦
      let e : s ≡ r = ground arith in
      subst (λ (x : WalletRow). IsInt64 x.balance_minor_units × IsInt64 x.version) e (t.1, t.2)
  | inr there ↦ select_one-IsInt64 k rs {r = r} t.3 (ground arith)
]

scan_wallet-fields :
    (r : WalletRow) {wl : Wallet}
    → scan_wallet (some r) ≡ ok wl
    → (wl.id ≡ r.id)
      × (wl.version ≡ r.version)
      × (wl.balance.minor_units ≡ r.balance_minor_units)
      × (pos 1 ≤ℤ r.version)
unfolding scan_wallet from_minor_units rehydrate
scan_wallet-fields r h = (ground arith, ground arith, ground arith, ground arith)

scan_wallet-some :
    (o : Option WalletRow) {wl : Wallet} → scan_wallet o ≡ ok wl → (r : WalletRow) × (o ≡ some r)
unfolding scan_wallet
scan_wallet-some none h = cc
scan_wallet-some (some r) h = (r, refl)

pub find_wallet-IsRead :
    (id : Bytes) (db : Db) {wl : Wallet}
    → IsTable db.wallets
    → find_wallet id db ≡ ok wl
    → (r : WalletRow) × IsRead wl r db
unfolding find_wallet
find_wallet-IsRead id db {wl} t h =
    let s = scan_wallet-some (row_of id db) h in
    let r = s.0 in
    let f = scan_wallet-fields r (subst (λ o. scan_wallet o ≡ ok wl) s.1 h) in
    let fits = select_one-IsInt64 id db.wallets t s.1 in
    let same : row_of r.id db ≡ some r = rw (select_one-id id db.wallets s.1) s.1 in
    (
      r,
      record {
        id = f.0;
        version = f.1;
        balance = f.2;
        positive = f.3;
        balance_fits = fits.0;
        version_fits = fits.1;
        held = record { newer = rw same (omega arith); same = λ _. same };
      },
    )

pub find_wallet-balance :
    (id : Bytes) (db : Db) {wl : Wallet}
    → IsTable db.wallets
    → find_wallet id db ≡ ok wl
    → (balance_of (row_of id db) ≡ wl.balance.minor_units) × IsInt64 wl.balance.minor_units
unfolding find_wallet
find_wallet-balance id db {wl} t h =
    let s = scan_wallet-some (row_of id db) h in
    let f = scan_wallet-fields s.0 (subst (λ o. scan_wallet o ≡ ok wl) s.1 h) in
    let fits = select_one-IsInt64 id db.wallets t s.1 in
    (rw s.1 (sym f.2), subst IsInt64 (sym f.2) fits.0)

-- What a movement by `n` has made of the wallet `wl`.
pub record IsMoved (wl wl' : Wallet) (n : ℤ) : Type 0 where
  pub id : wl'.id ≡ wl.id
  pub balance : wl'.balance.minor_units ≡ wl.balance.minor_units +ℤ n
  pub balance_fits : IsInt64 wl'.balance.minor_units
  pub version : wl'.version ≡ wrap64 (wl.version +ℤ pos 1)

pub debit-IsMoved :
    (wl : Wallet) (amount : Money) (now : Time) {wl' : Wallet}
    → IsInt64 wl.balance.minor_units
    → IsInt64 amount.minor_units
    → debit wl amount now ≡ (wl', ok tt)
    → IsMoved wl wl' (pos 0 -ℤ amount.minor_units)
unfolding debit sub
debit-IsMoved wl amount now fits_b fits_a h =
    let exact = sub_int64_exact wl.balance.minor_units amount.minor_units fits_b fits_a in
    let moved : wl.balance.minor_units -ℤ amount.minor_units
        ≡ wl.balance.minor_units +ℤ (pos 0 -ℤ amount.minor_units) =
      omega int_laws in
    record {
      id = ground arith;
      balance = ground (arith, exact, moved);
      balance_fits = ground (arith, exact);
      version = ground arith;
    }

pub credit-IsMoved :
    (wl : Wallet) (amount : Money) (now : Time) {wl' : Wallet}
    → IsInt64 wl.balance.minor_units
    → IsInt64 amount.minor_units
    → credit wl amount now ≡ (wl', ok tt)
    → IsMoved wl wl' amount.minor_units
unfolding credit add
credit-IsMoved wl amount now fits_b fits_a h =
    let exact = add_int64_exact wl.balance.minor_units amount.minor_units fits_b fits_a in
    record {
      id = ground arith;
      balance = ground (arith, exact);
      balance_fits = ground (arith, exact);
      version = ground arith;
    }

-- A version that has not wrapped below 1 has grown.
pub wrap64_grows : (v : ℤ) → IsInt64 v → pos 1 ≤ℤ wrap64 (v +ℤ pos 1) → v <ℤ wrap64 (v +ℤ pos 1)
unfolding wrap64 ◌+ℤ◌
wrap64_grows (pos n) fits h = ground arith
wrap64_grows (negsuc n) fits h = ground arith
