-- ===== src/Books/Writes.antt =====
-- The drift of each write: `Save` moves the balance alone, an entry moves the sum alone, and no other
-- write moves either.
use wager_ledger.Base.{
  ℤ, pos, ◌+ℤ◌, ◌≤ℤ◌, ◌<ℤ◌, eqb_ℤ-eq, IsInt64, int_laws, true, false, Bytes, str_eq, str_eq_sound,
  str_eq_refl, Bool-cases, Option-cases, ap, eq-parts, some, List, [], ◌∷◌, if◌then◌else◌, ◌≡◌,
  refl, sym, subst, ◌∙◌, arith, inl, inr,
}
use mathlib.Core.Option
use wager_ledger.Errors.{ok}
use wager_ledger.Wallet.{Wallet}
use wager_ledger.Postgres.{
  WalletRow, Db, select_one, exists, update_where, wallet_has_id, at_version, set_balance,
  save_wallet,
}
use wager_ledger.Books.Kept.{Kept-same}
use wager_ledger.Books.Drift.{IsTable, row_of, Drift, only, Held}

pub select_one-id :
    (k : Bytes) (rs : List WalletRow) {r : WalletRow}
    → select_one (wallet_has_id k) rs ≡ some r
    → r.id ≡ k
unfolding select_one
select_one-id k [] h = cc
select_one-id k (s ∷ rs) {r} h = ground (arith, str_eq_sound s.id k, select_one-id k rs {r = r})

module _ (w : Wallet) (p : ℤ) where
  abbrev saved : WalletRow → WalletRow
  saved r = if at_version w p r then set_balance w r else r

  abbrev saved_rows : List WalletRow → List WalletRow
  saved_rows rs = update_where (at_version w p) (set_balance w) rs

  select_one-saved :
      (k : Bytes) (rs : List WalletRow)
      → select_one (wallet_has_id k) (saved_rows rs)
        ≡ Option.map saved (select_one (wallet_has_id k) rs)
  unfolding select_one update_where
  select_one-saved k [] = refl
  select_one-saved k (r ∷ rs) = ground (arith, select_one-saved k rs)

  exists-saved :
      (k : Bytes) (rs : List WalletRow)
      → exists (wallet_has_id k) (saved_rows rs) ≡ exists (wallet_has_id k) rs
  unfolding exists update_where
  exists-saved k [] = refl
  exists-saved k (r ∷ rs) = ground (arith, exists-saved k rs)

  saved-IsTable :
      (rs : List WalletRow)
      → IsInt64 w.balance.minor_units
      → IsInt64 w.version
      → IsTable rs
      → IsTable (saved_rows rs)
  unfolding update_where
  saved-IsTable [] hb hv t = tt
  saved-IsTable (r ∷ rs) hb hv t = ground (arith, saved-IsTable rs hb hv t.3, exists-saved r.id rs)

  exists-weaken :
      (rs : List WalletRow)
      → exists (at_version w p) rs ≡ true
      → exists (wallet_has_id w.id) rs ≡ true
  unfolding exists
  exists-weaken [] h = cc
  exists-weaken (r ∷ rs) h = ground (arith, exists-weaken rs)

  -- With one row for each id, the row that `Save` affects is the row that a read finds.
  row-at_version :
      (rs : List WalletRow)
      → IsTable rs
      → exists (at_version w p) rs ≡ true
      → (r : WalletRow) × (select_one (wallet_has_id w.id) rs ≡ some r) × (at_version w p r ≡ true)
  unfolding exists select_one
  row-at_version [] t h = cc
  row-at_version (r ∷ rs) t h = elim (Bool-cases (str_eq r.id w.id)) [
    | inl here ↦ (
      r,
      rw here,
      elim (Bool-cases (at_version w p r)) [
        | inl at ↦ at
        | inr other ↦
            let twice : exists (wallet_has_id w.id) rs ≡ true = exists-weaken rs (ground arith) in
            let id : r.id ≡ w.id = str_eq_sound r.id w.id here in
            let once : exists (wallet_has_id w.id) rs ≡ false =
              subst (λ k. exists (wallet_has_id k) rs ≡ false) id t.0 in
            cc
      ],
    )
    | inr there ↦ rw there (row-at_version rs t.3 (ground arith))
  ]

-- The rows that stand after a `Save`.
abbrev saved_db : Wallet → ℤ → Db → Db
saved_db w p db = record db { wallets = saved_rows w p db.wallets }

save_wallet-ok :
    (w : Wallet) (p : ℤ) (db : Db) {db' : Db}
    → save_wallet w p db ≡ ok db'
    → (exists (at_version w p) db.wallets ≡ true) × (db' ≡ saved_db w p db) × (pos 1 ≤ℤ w.version)
unfolding save_wallet
save_wallet-ok w p db h = (ground arith, ground arith, ground arith)

module _ (w : Wallet) (r : WalletRow) (db : Db) (t : IsTable db.wallets) (held : Held r db)
    (id : w.id ≡ r.id) (hit : exists (at_version w r.version) db.wallets ≡ true) where
  row_read : row_of r.id db ≡ some r
  row_read =
      let (s, found, at) = row-at_version w r.version db.wallets t hit in
      let version : s.version ≡ r.version = eqb_ℤ-eq s.version r.version (ground arith) in
      let found' : row_of r.id db ≡ some s = rw (← id) found in held.same (rw found' version)

  saved_other :
      (k : Bytes) (s : WalletRow) → str_eq r.id k ≡ false → s.id ≡ k → saved w r.version s ≡ s
  saved_other k s ne e =
      let d : str_eq s.id w.id ≡ false = elim (Bool-cases (str_eq s.id w.id)) [
        | inl same ↦
            let p : r.id ≡ k = sym id ∙ sym (str_eq_sound s.id w.id same) ∙ e in
            let q : str_eq r.id k ≡ true = rw p (str_eq_refl k) in absurd (cc)
        | inr other ↦ other
      ] in
      rw d

  saved_self : saved w r.version r ≡ set_balance w r
  saved_self = let e : str_eq r.id w.id ≡ true = rw id (str_eq_refl r.id) in ground (arith, e)

  row-saved :
      (k : Bytes)
      → row_of k (saved_db w r.version db)
        ≡ (if str_eq r.id k then some (set_balance w r) else row_of k db)
  row-saved k = rw (select_one-saved w r.version k db.wallets) (elim (Bool-cases (str_eq r.id k)) [
    | inl same ↦
        let found : row_of k db ≡ some r =
          subst (λ j. row_of j db ≡ some r) (str_eq_sound r.id k same) row_read in
        rw (same, found) (ap some saved_self)
    | inr ne ↦ elim (Option-cases (row_of k db)) [
      | inl e ↦ rw (ne, e)
      | inr (s, e) ↦ rw (ne, e) (ap some (saved_other k s ne (select_one-id k db.wallets e)))
    ]
  ])

  row_of-same : (k : Bytes) → str_eq r.id k ≡ true → row_of k db ≡ some r
  row_of-same k same = subst (λ j. row_of j db ≡ some r) (str_eq_sound r.id k same) row_read

-- The drift of a `Save` at the version that was read: the balance changes, in that wallet alone.
pub save_wallet-Drift :
    (w : Wallet) (r : WalletRow) (n : ℤ) (db : Db) {db' : Db}
    → IsTable db.wallets
    → Held r db
    → w.id ≡ r.id
    → IsInt64 w.balance.minor_units
    → IsInt64 w.version
    → (pos 1 ≤ℤ w.version → r.version <ℤ w.version)
    → w.balance.minor_units ≡ r.balance_minor_units +ℤ n
    → save_wallet w r.version db ≡ ok db'
    → Drift (only r.id n) db db'
save_wallet-Drift w r n db t held id fits_b fits_v later moved h =
    let d = save_wallet-ok w r.version db h in
    let after = row-saved w r db t held id d.0 in
    let before = row_of-same w r db t held id d.0 in
    let newer : r.version <ℤ w.version = later d.2 in
    rw d.1 (record {
      books = λ k. elim (Bool-cases (str_eq r.id k)) [
        | inl same ↦ rw (after k, same, before k same) (omega (int_laws, eq-parts _ _ moved))
        | inr ne ↦ rw (after k, ne) (omega int_laws)
      ];
      grows = λ k. elim (Bool-cases (str_eq r.id k)) [
        | inl same ↦ rw (after k, same, before k same) (omega (arith, newer))
        | inr ne ↦ rw (after k, ne) (omega arith)
      ];
      stable = λ k. elim (Bool-cases (str_eq r.id k)) [
        | inl same ↦
            rw (after k, same, before k same)
              (λ e. absurd (omega (arith, newer, eq-parts r.version w.version e)))
        | inr ne ↦ rw (after k, ne) (λ e. refl)
      ];
      table = saved-IsTable w r.version db.wallets fits_b fits_v t;
      kept = Kept-same db _ refl refl refl;
    })
