-- ===== src/Books/Drift.antt =====
-- How far the balance of each wallet and the sum of its ledger move apart between two states of the
-- tables (wallets and wallet_ledger_entries, migrations 0001 and 0003).
use wager_ledger.Base.{
  ℤ, pos, ◌+ℤ◌, ◌≤ℤ◌, IsInt64, int_laws, eq-parts, eq_of_parts, false, Bytes, str_eq, Option, none,
  some, List, [], ◌∷◌, if◌then◌else◌, ◌≡◌, refl, sym, ◌∙◌, arith,
}
use wager_ledger.Postgres.{WalletRow, Db, select_one, exists, wallet_has_id, entry_sum}
use wager_ledger.Books.Kept.{Kept, Kept-refl, Kept-trans}

-- Every id stands in one row, and the BIGINT columns hold int64.
abbrev pub IsTable : List WalletRow → Type 0
IsTable [] = Unit
IsTable (r ∷ rs) =
    (exists (wallet_has_id r.id) rs ≡ false)
    × IsInt64 r.balance_minor_units
    × IsInt64 r.version
    × IsTable rs

abbrev pub row_of : Bytes → Db → Option WalletRow
row_of k db = select_one (wallet_has_id k) db.wallets

-- A wallet that is not there has balance 0 and version 0.
abbrev pub balance_of : Option WalletRow → ℤ
balance_of none = pos 0
balance_of (some r) = r.balance_minor_units

abbrev pub version_of : Option WalletRow → ℤ
version_of none = pos 0
version_of (some r) = r.version

-- From `db` to `db'` the balance of each wallet `k` has grown by `apart k` more than the sum of its
-- entries; versions do not fall, and a row whose version stays is the same row; and
-- no entry and no received message is lost.
pub record Drift (apart : Bytes → ℤ) (db db' : Db) : Type 0 where
  pub books :
      (k : Bytes)
      → balance_of (row_of k db') +ℤ entry_sum k db.entries
        ≡ balance_of (row_of k db) +ℤ entry_sum k db'.entries +ℤ apart k
  pub grows : (k : Bytes) → version_of (row_of k db) ≤ℤ version_of (row_of k db')
  pub stable :
      (k : Bytes)
      → version_of (row_of k db) ≡ version_of (row_of k db')
      → row_of k db' ≡ row_of k db
  pub table : IsTable db'.wallets
  pub kept : Kept db db'

-- No wallet's balance moves away from its ledger.
abbrev pub still : Bytes → ℤ
still k = pos 0

-- The change `n` in the wallet `id` alone.
abbrev pub only : Bytes → ℤ → Bytes → ℤ
only id n k = if str_eq id k then n else pos 0

pub Drift-refl : (db : Db) → IsTable db.wallets → Drift still db db
Drift-refl db t = record {
  books = λ k. omega int_laws;
  grows = λ k. omega arith;
  stable = λ k e. refl;
  table = t;
  kept = Kept-refl db;
}

le_antisym : (a b c : ℤ) → a ≤ℤ b → b ≤ℤ c → a ≡ c → (a ≡ b) × (b ≡ c)
le_antisym a b c h k e = (
  eq_of_parts a b (omega (arith, eq-parts a c e)),
  eq_of_parts b c (omega (arith, eq-parts a c e)),
)

pub Drift-trans :
    {f g h : Bytes → ℤ} {a b c : Db}
    → Drift f a b
    → Drift g b c
    → ((k : Bytes) → f k +ℤ g k ≡ h k)
    → Drift h a c
Drift-trans {f} {g} {h} {a} {b} {c} d e sums = record {
  books = λ k.
      omega (int_laws, eq-parts _ _ (d.books k), eq-parts _ _ (e.books k), eq-parts _ _ (sums k));
  grows = λ k. omega (arith, d.grows k, e.grows k);
  stable = λ k same.
      let p = le_antisym _ _ _ (d.grows k) (e.grows k) same in e.stable k p.1 ∙ d.stable k p.0;
  table = e.table;
  kept = Kept-trans d.kept e.kept;
}

-- A row that was read: if its version still stands, so does the row.
pub record Held (r : WalletRow) (db : Db) : Type 0 where
  pub newer : r.version ≤ℤ version_of (row_of r.id db)
  pub same : version_of (row_of r.id db) ≡ r.version → row_of r.id db ≡ some r

pub Held-Drift : {f : Bytes → ℤ} {r : WalletRow} {a b : Db} → Held r a → Drift f a b → Held r b
Held-Drift {f} {r} {a} {b} h d = record {
  newer = omega (arith, h.newer, d.grows r.id);
  same = λ e.
      let p = le_antisym _ _ _ h.newer (d.grows r.id) (sym e) in
      d.stable r.id p.1 ∙ h.same (sym p.0);
}
