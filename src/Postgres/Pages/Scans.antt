-- ===== src/Postgres/Pages/Scans.antt =====
-- The rows of a page and the entries that they are read as, side by side.
use wager_ledger.Base.{
  ℕ, zero, suc, ◌<◌, ◌≤◌, Bytes, some, List, [], ◌∷◌, length, ◌≡◌, refl, ap, arith,
}
use wager_ledger.Errors.{ok}
use wager_ledger.Ledger.{Entry, new_entry}
use wager_ledger.Postgres.Tables.{EntryRow}
use wager_ledger.Postgres.Queries.{limit, beyond}
use wager_ledger.Postgres.Queries.Strict.{nth}
use wager_ledger.Postgres.Pages.{
  Codec, entry_key, scan_entry, scan_entries, encode_ledger_cursor, cursor_at,
}

-- the entries of the rows, one by one
abbrev pub Scans : Bytes → List EntryRow → List Entry → Type 0
Scans wallet_id [] [] = Unit
Scans wallet_id (r ∷ rows) (e ∷ entries) =
    (scan_entry wallet_id r ≡ ok e) × Scans wallet_id rows entries
Scans wallet_id _ _ = ⊥

module _ (wallet_id : Bytes) where
  pub scan_entries-Scans :
      (rows : List EntryRow) (entries : List Entry)
      → scan_entries wallet_id rows ≡ ok entries
      → Scans wallet_id rows entries
  unfolding scan_entries
  scan_entries-Scans [] [] h = tt
  scan_entries-Scans [] (e ∷ es) h = cc
  scan_entries-Scans (r ∷ rows) [] h = ground (arith, h)
  scan_entries-Scans (r ∷ rows) (e ∷ es) h =
      (ground (arith, h), scan_entries-Scans rows es (ground (arith, h)))

  pub Scans-limit :
      (n : ℕ) (rows : List EntryRow) (es : List Entry)
      → Scans wallet_id rows es
      → scan_entries wallet_id (limit n rows) ≡ ok (limit n es)
  unfolding scan_entries limit
  Scans-limit zero rows es h = refl
  Scans-limit (suc n) [] [] h = refl
  Scans-limit (suc n) [] (e ∷ es) h = absurd h
  Scans-limit (suc n) (r ∷ rows) [] h = absurd h
  Scans-limit (suc n) (r ∷ rows) (e ∷ es) (x, h) = rw (x, Scans-limit n rows es h) refl

  pub Scans-beyond :
      (n : ℕ) (rows : List EntryRow) (es : List Entry)
      → Scans wallet_id rows es
      → Scans wallet_id (beyond n rows) (beyond n es)
  unfolding beyond
  Scans-beyond zero rows es h = h
  Scans-beyond (suc n) [] [] h = tt
  Scans-beyond (suc n) [] (e ∷ es) h = absurd h
  Scans-beyond (suc n) (r ∷ rows) [] h = absurd h
  Scans-beyond (suc n) (r ∷ rows) (e ∷ es) (x, h) = Scans-beyond n rows es h

  scan_entry-key :
      (r : EntryRow) (e : Entry)
      → scan_entry wallet_id r ≡ ok e
      → (e.created_at ≡ r.created_at) × (e.id ≡ r.id)
  unfolding scan_entry new_entry
  scan_entry-key r e h = ground (arith, h)

  module _ (codec : Codec) where
    pub Scans-cursor :
        (m : ℕ) (rows : List EntryRow) (es : List Entry)
        → Scans wallet_id rows es
        → m < length es
        → (y : EntryRow) × (nth m rows ≡ some y)
          × (cursor_at codec (suc m) es ≡ encode_ledger_cursor codec (entry_key y))
    unfolding cursor_at entry_key
    Scans-cursor m [] [] h lt = absurd (omega (arith, lt))
    Scans-cursor m [] (e ∷ es) h lt = absurd h
    Scans-cursor m (r ∷ rows) [] h lt = absurd h
    Scans-cursor zero (r ∷ rows) (e ∷ es) (x, h) lt =
        let k = scan_entry-key r e x in (r, refl, rw (k.0, k.1) refl)
    Scans-cursor (suc m) (r ∷ rows) (e ∷ es) (x, h) lt =
        Scans-cursor m rows es h (omega (arith, lt))

    pub cursor_at-limit :
        (n : ℕ) (es : List Entry) → cursor_at codec n (limit (suc n) es) ≡ cursor_at codec n es
    unfolding cursor_at limit
    cursor_at-limit n [] = refl
    cursor_at-limit zero (e ∷ es) = refl
    cursor_at-limit (suc zero) (e ∷ es) = refl
    cursor_at-limit (suc (suc n)) (e ∷ es) = cursor_at-limit (suc n) es

pub limit-limit : (n : ℕ) (es : List Entry) → limit n (limit (suc n) es) ≡ limit n es
unfolding limit
limit-limit zero es = refl
limit-limit (suc n) [] = refl
limit-limit (suc n) (e ∷ es) = ap (e ∷◌) (limit-limit n es)

pub limit-whole : (n : ℕ) (es : List Entry) → length (limit (suc n) es) ≤ n → limit (suc n) es ≡ es
unfolding limit
limit-whole n [] h = refl
limit-whole zero (e ∷ es) h = absurd (omega (arith, h))
limit-whole (suc n) (e ∷ es) h = ap (e ∷◌) (limit-whole n es (omega (arith, h)))

pub length-limit_le : (n : ℕ) (es : List Entry) → length (limit n es) ≤ length es
unfolding limit
length-limit_le zero es = omega arith
length-limit_le (suc n) [] = omega arith
length-limit_le (suc n) (e ∷ es) = omega (arith, length-limit_le n es)

pub length-beyond :
    (n : ℕ) (es : List Entry) → suc n < suc (length es) → length (beyond (suc n) es) < length es
unfolding beyond
length-beyond n [] h = absurd (omega (arith, h))
length-beyond zero (e ∷ es) h = omega arith
length-beyond (suc n) (e ∷ es) h = omega (arith, length-beyond n es (omega (arith, h)))
