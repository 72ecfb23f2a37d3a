-- ===== src/Postgres/Pages/Order.antt =====
-- The order (created_at, id) of the ledger's rows is total and transitive.
use wager_ledger.Base.{true, false, Bytes, [], ◌∷◌, ◌≡◌, refl, arith}
use wager_ledger.Wallet.{Time}
use wager_ledger.Postgres.Queries.{text_le, created_before}
use wager_ledger.Postgres.Queries.Ordered.{IsOrder}
use wager_ledger.Postgres.Pages.{entry_key, entry_before}

-- Byte order is total and transitive.
text_le-total : (s t : Bytes) → text_le s t ≡ false → text_le t s ≡ true
unfolding text_le
text_le-total [] t h = cc
text_le-total (b ∷ s) [] h = refl
text_le-total (b ∷ s) (c ∷ t) h = ground (arith, h, text_le-total s t)

text_le_trans : (s t u : Bytes) → text_le s t ≡ true → text_le t u ≡ true → text_le s u ≡ true
unfolding text_le
text_le_trans [] t u h k = refl
text_le_trans (b ∷ s) (c ∷ t) (d ∷ u) h k = ground (arith, h, k, text_le_trans s t u)
text_le_trans (b ∷ s) [] u h k = cc
text_le_trans (b ∷ s) (c ∷ t) [] h k = cc

abbrev pub Key : Type 0
Key = Time × Bytes

pub created_before-total : (a b : Key) → created_before a b ≡ false → created_before b a ≡ true
unfolding created_before
created_before-total (at, id) (at', id') h = ground (arith, h, text_le-total id id')

pub created_before_trans :
    (a b c : Key)
    → created_before a b ≡ true
    → created_before b c ≡ true
    → created_before a c ≡ true
unfolding created_before
created_before_trans (at, id) (at', id') (at'', id'') h k =
    ground (arith, h, k, text_le_trans id id' id'')

pub entry_before-IsOrder : IsOrder entry_before
entry_before-IsOrder = record {
  total = λ a b. created_before-total (entry_key a) (entry_key b);
  trans = λ a b c. created_before_trans (entry_key a) (entry_key b) (entry_key c);
}
