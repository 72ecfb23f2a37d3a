-- ===== src/Postgres/Pages/Complete.antt =====
-- Reading page after page gives the whole ledger of a wallet (ledger_repository.go, `ListByWallet`).
use wager_ledger.Base.{
  ℕ, zero, suc, ℤ, pos, negsuc, ltb, ◌<◌, Bool, true, false, not, ◌&&◌, Bytes, str_eq, is_empty,
  Option, none, some, List, [], ◌++◌, length, ◌≡◌, refl, sym, ap, ap₂, subst, ◌∙◌, arith,
  if◌then◌else◌, Bool-cases, inl, inr,
}
use wager_ledger.Errors.{ok}
use wager_ledger.Ledger.{Entry}
use wager_ledger.Postgres.Tables.{EntryRow, Db}
use wager_ledger.Postgres.Queries.{created_before, select_all, order_by, limit, beyond}
use wager_ledger.Postgres.Queries.Ordered.{limit-beyond, All-select_all, All-each}
use wager_ledger.Postgres.Queries.Strict.{
  Distinct, Strict, nth, nth-All, order_by-Strict, Strict-select, select-order_by, select-and,
  select-weaker, select-beyond, select-true,
}
use wager_ledger.Postgres.Pages.{
  Codec, Listing, page, entry_key, entry_before, is_after, page_rows, scan_entries, page_size,
  encode_ledger_cursor, cursor_at, cut_page, list_after, list_by_wallet,
}
use wager_ledger.Postgres.Pages.Cursor.{IsFaithful, decode-encode_ledger_cursor}
use wager_ledger.Postgres.Pages.Order.{
  Key, created_before-total, created_before_trans, entry_before-IsOrder,
}
use wager_ledger.Postgres.Pages.Scans.{
  Scans, scan_entries-Scans, Scans-limit, Scans-beyond, Scans-cursor, cursor_at-limit, limit-limit,
  limit-whole, length-limit_le, length-beyond,
}

page_size-suc : (wanted : ℤ) → (m : ℕ) × (page_size wanted ≡ suc m)
unfolding page_size
page_size-suc (pos zero) = (49, refl)
page_size-suc (pos (suc n)) = (n, refl)
page_size-suc (negsuc n) = (49, refl)

not-true : (b : Bool) → not b ≡ true → b ≡ false
not-true true h = cc
not-true false h = refl

both : (b : Bool) → b ≡ true → b ≡ false → ⊥
both b h k = cc

abbrev append_to : List Entry → Option (List Entry) → Option (List Entry)
append_to entries none = none
append_to entries (some more) = some (entries ++ more)

module _ (wallet_id : Bytes) (db : Db) where
  abbrev mine : EntryRow → Bool
  mine r = str_eq r.wallet_id wallet_id

  -- the wallet's rows in their order
  abbrev pub ledger_rows : List EntryRow
  ledger_rows = select_all mine (order_by entry_before db.entries)

module _ (codec : Codec) (wallet_id : Bytes) (wanted : ℤ) (db : Db) where
  -- A reader follows a page by that of its cursor, until there is none.
  abbrev pub follow : (Bytes → Option (List Entry)) → Listing → Option (List Entry)
  follow next (page entries cursor) =
      if is_empty cursor then some entries else append_to entries (next cursor)
  follow next _ = none

  -- The reader, for a number of pages at most; `none` if they do not suffice, or a page fails.
  pub read_pages : ℕ → Bytes → Option (List Entry)
  read_pages zero cursor = none
  read_pages (suc pages) cursor =
      follow (read_pages pages) (list_by_wallet codec wallet_id cursor wanted db)

  page_rows-rest :
      (after : Option Key) (n : ℕ)
      → page_rows wallet_id after n db
        ≡ limit n (select_all (is_after after) (ledger_rows wallet_id db))
  unfolding page_rows
  page_rows-rest after n = ap (limit n) (
      select-order_by entry_before entry_before-IsOrder
        (λ r. mine wallet_id db r && is_after after r) db.entries
      ∙ select-and (mine wallet_id db) (is_after after) (order_by entry_before db.entries))

  -- What a page of the rows behind `after` is.
  list_after-cut :
      (after : Option Key) (m : ℕ) (rows : List EntryRow) (es : List Entry)
      → page_size wanted ≡ suc m
      → select_all (is_after after) (ledger_rows wallet_id db) ≡ rows
      → Scans wallet_id rows es
      → list_after codec wallet_id after wanted db
        ≡ cut_page codec (suc m) (ok (limit (suc (suc m)) es))
  unfolding list_after
  list_after-cut after m rows es size selected scans =
      rw
        (
          size,
          page_rows-rest after (suc (suc m)),
          selected,
          Scans-limit wallet_id (suc (suc m)) rows es scans,
        )
        refl

  later-weaker :
      (after : Option Key) (y r : EntryRow)
      → is_after after y ≡ true
      → is_after (some (entry_key y)) r ≡ true
      → is_after after r ≡ true
  unfolding is_after
  later-weaker none y r h k = refl
  later-weaker (some c) y r h k = elim (Bool-cases (created_before (entry_key r) c)) [
    | inl e ↦
        let c_first = created_before-total (entry_key y) c (not-true _ h) in
        let r_first = created_before_trans (entry_key r) c (entry_key y) e c_first in
        absurd (both _ r_first (not-true _ k))
    | inr e ↦ rw e refl
  ]

  -- The rows behind the key of a row of the rest are the rest behind this row.
  rest-beyond :
      (after : Option Key) (m : ℕ) (y : EntryRow)
      → Strict entry_before (ledger_rows wallet_id db)
      → nth m (select_all (is_after after) (ledger_rows wallet_id db)) ≡ some y
      → select_all (is_after (some (entry_key y))) (ledger_rows wallet_id db)
        ≡ beyond (suc m) (select_all (is_after after) (ledger_rows wallet_id db))
  unfolding is_after
  rest-beyond after m y strict found =
      let rest = select_all (is_after after) (ledger_rows wallet_id db) in
      let there =
        nth-All (λ r. is_after after r ≡ true) m rest
          (All-select_all _ (is_after after) (ledger_rows wallet_id db) (λ r e. e)) found in
      sym (
        select-weaker (is_after after) (is_after (some (entry_key y))) (ledger_rows wallet_id db)
          (λ r. later-weaker after y r there))
      ∙ select-beyond entry_before entry_before-IsOrder m rest y
          (Strict-select entry_before entry_before-IsOrder (is_after after)
            (ledger_rows wallet_id db) strict)
          found

-- The reader has read all: by the number of pages that are left.
module _ (codec : Codec) (faithful : IsFaithful codec) (wallet_id : Bytes) (wanted : ℤ) (db : Db)
    (strict : Strict entry_before (ledger_rows wallet_id db)) where
  abbrev rows : List EntryRow
  rows = ledger_rows wallet_id db

  abbrev read : ℕ → Bytes → Option (List Entry)
  read = read_pages codec wallet_id wanted db

  -- the cursor stands for the key
  abbrev Leads : Bytes → Option Key → Type 0
  Leads cursor after =
      list_by_wallet codec wallet_id cursor wanted db ≡ list_after codec wallet_id after wanted db

  encoded-Leads : (key : Key) → Leads (encode_ledger_cursor codec key) (some key)
  unfolding list_by_wallet
  encoded-Leads key = let c = decode-encode_ledger_cursor codec faithful key in rw (c.0, c.1) refl

  cut-last :
      (m : ℕ) (es : List Entry)
      → ltb (suc m) (length (limit (suc (suc m)) es)) ≡ false
      → cut_page codec (suc m) (ok (limit (suc (suc m)) es)) ≡ page es []
  unfolding cut_page
  cut-last m es h = rw h (ap (λ x. page x []) (limit-whole (suc m) es (ground (arith, h))))

  cut-more :
      (m : ℕ) (es : List Entry)
      → ltb (suc m) (length (limit (suc (suc m)) es)) ≡ true
      → cut_page codec (suc m) (ok (limit (suc (suc m)) es))
        ≡ page (limit (suc m) es) (cursor_at codec (suc m) es)
  unfolding cut_page
  cut-more m es h =
      rw h (ap₂ page (limit-limit (suc m) es) (cursor_at-limit wallet_id codec (suc m) es))

  follow-more :
      (next : Bytes → Option (List Entry)) (m : ℕ) (es : List Entry) (key : Key)
      → cursor_at codec (suc m) es ≡ encode_ledger_cursor codec key
      → next (encode_ledger_cursor codec key) ≡ some (beyond (suc m) es)
      → follow codec wallet_id wanted db next (page (limit (suc m) es) (cursor_at codec (suc m) es))
        ≡ some es
  follow-more next m es key cursor rest =
      rw (cursor, (decode-encode_ledger_cursor codec faithful key).0, rest)
        (ap some (limit-beyond (suc m) es))

  read_pages-rest :
      (pages : ℕ) (cursor : Bytes) (after : Option Key) (es : List Entry)
      → Leads cursor after
      → Scans wallet_id (select_all (is_after after) rows) es
      → length es < pages
      → read pages cursor ≡ some es
  unfolding read_pages
  read_pages-rest zero cursor after es leads scans lt = absurd (omega (arith, lt))
  read_pages-rest (suc pages) cursor after es leads scans lt =
      let (m, size) = page_size-suc wanted in
      let listing = leads ∙ list_after-cut codec wallet_id wanted db after m _ es size refl scans in
      ap (follow codec wallet_id wanted db (read pages)) listing
      ∙ elim (Bool-cases (ltb (suc m) (length (limit (suc (suc m)) es)))) [
        | inr e ↦ ap (follow codec wallet_id wanted db (read pages)) (cut-last m es e)
        | inl e ↦
            ap (follow codec wallet_id wanted db (read pages)) (cut-more m es e)
            ∙ (let many : suc m < length es = ground (arith, e, length-limit_le (suc (suc m)) es) in
                let (y, found, cursor_y) =
                  Scans-cursor wallet_id codec m _ es scans (omega (arith, many)) in
                let behind = rest-beyond codec wallet_id wanted db after m y strict found in
                follow-more (read pages) m es (entry_key y) cursor_y (
                  read_pages-rest pages _ (some (entry_key y)) (beyond (suc m) es)
                    (encoded-Leads (entry_key y))
                    (subst (λ x. Scans wallet_id x (beyond (suc m) es)) (sym behind)
                      (Scans-beyond wallet_id (suc m) _ es scans))
                    (omega (arith, lt, length-beyond m es (omega (arith, many))))))
      ]

-- Whoever follows the cursors from the first page on reads the whole ledger of the wallet in the order of
-- its creation, each entry once, and is done after as many pages as there are entries, and one more, at
-- most: whatever the size of a page, provided that no two entries have the same time and
-- id, that each of the wallet's rows is a valid entry, and that the libraries read back the times and texts that they write.
pub read_pages_complete :
    (codec : Codec) (wallet_id : Bytes) (wanted : ℤ) (db : Db) (entries : List Entry) (pages : ℕ)
    → IsFaithful codec
    → Distinct entry_before db.entries
    → scan_entries wallet_id (ledger_rows wallet_id db) ≡ ok entries
    → length entries < pages
    → read_pages codec wallet_id wanted db pages [] ≡ some entries
unfolding list_by_wallet is_after
read_pages_complete codec wallet_id wanted db entries pages faithful distinct scanned enough =
    let rows = ledger_rows wallet_id db in
    let strict =
      Strict-select entry_before entry_before-IsOrder _ _
        (order_by-Strict entry_before entry_before-IsOrder db.entries distinct) in
    let all = select-true (is_after none) rows (All-each _ (λ r. refl) rows) in
    read_pages-rest codec faithful wallet_id wanted db strict pages [] none entries refl
      (subst (λ x. Scans wallet_id x entries) (sym all)
        (scan_entries-Scans wallet_id rows entries scanned))
      enough
