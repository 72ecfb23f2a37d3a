-- ===== src/Postgres/Queries.antt =====
-- SELECT … WHERE … ORDER BY … LIMIT on a list of rows. Rows with equal keys keep the table's order,
-- one of those that SQL allows.
pub mod Ordered
pub mod Strict
use wager_ledger.Base.{
  ℕ, zero, suc, pos, ltb_ℤ, eqb_ℤ, Bool, true, false, ◌&&◌, ◌||◌, Bytes, List, [], ◌∷◌,
  if◌then◌else◌,
}
use wager_ledger.Wallet.{Time}

-- byte order, in which SQL compares the texts of the columns
unfoldable pub text_le : Bytes → Bytes → Bool
text_le [] t = true
text_le (b ∷ s) [] = false
text_le (b ∷ s) (c ∷ t) = ltb_ℤ (pos b) (pos c) || (eqb_ℤ (pos b) (pos c) && text_le s t)

-- ORDER BY created_at, id: whether the first row may stand before the second
unfoldable pub created_before : Time × Bytes → Time × Bytes → Bool
unfolding text_le
created_before (at, id) (at', id') = ltb_ℤ at at' || (eqb_ℤ at at' && text_le id id')

module _ {ℓ} {A : Type ℓ} where
  -- WHERE p
  unfoldable pub select_all : (A → Bool) → List A → List A
  select_all p [] = []
  select_all p (r ∷ rs) = let rest = select_all p rs in if p r then r ∷ rest else rest

  unfoldable pub insert_ordered : (A → A → Bool) → A → List A → List A
  insert_ordered le r [] = r ∷ []
  insert_ordered le r (s ∷ rows) =
      let rest = insert_ordered le r rows in if le r s then r ∷ s ∷ rows else s ∷ rest

  -- ORDER BY, where `le r s` says that `r` may stand before `s`
  unfoldable pub order_by : (A → A → Bool) → List A → List A
  unfolding insert_ordered
  order_by le [] = []
  order_by le (r ∷ rs) = insert_ordered le r (order_by le rs)

  -- LIMIT n
  unfoldable pub limit : ℕ → List A → List A
  limit zero rows = []
  limit (suc n) [] = []
  limit (suc n) (r ∷ rows) = r ∷ limit n rows

  -- the rows that LIMIT n leaves out
  unfoldable pub beyond : ℕ → List A → List A
  beyond zero rows = rows
  beyond (suc n) [] = []
  beyond (suc n) (r ∷ rows) = beyond n rows
