-- ===== src/Postgres/Queries/Ordered.antt =====
-- What holds of the rows of a query: their order, and which rows they are.
use wager_ledger.Base.{
  ℕ, zero, suc, ◌≤◌, Bool, true, false, List, [], ◌∷◌, ◌++◌, All, length, ◌≡◌, refl, ap, arith,
  Bool-cases, inl, inr,
}
use wager_ledger.Postgres.Queries.{select_all, insert_ordered, order_by, limit, beyond}

module _ {ℓ} {A : Type ℓ} where
  pub All-select_all :
      (Q : A → Type 0) (p : A → Bool) (rows : List A)
      → ((r : A) → p r ≡ true → Q r)
      → All Q (select_all p rows)
  unfolding select_all
  All-select_all Q p [] h = tt
  All-select_all Q p (r ∷ rows) h = elim (Bool-cases (p r)) [
    | inl e ↦ rw e (h r e, All-select_all Q p rows h)
    | inr e ↦ rw e (All-select_all Q p rows h)
  ]

  pub All-select_all_kept :
      (Q : A → Type 0) (p : A → Bool) (rows : List A) → All Q rows → All Q (select_all p rows)
  unfolding select_all
  All-select_all_kept Q p [] h = tt
  All-select_all_kept Q p (r ∷ rows) (q, h) = elim (Bool-cases (p r)) [
    | inl e ↦ rw e (q, All-select_all_kept Q p rows h)
    | inr e ↦ rw e (All-select_all_kept Q p rows h)
  ]

  pub All-insert_ordered :
      (Q : A → Type 0) (le : A → A → Bool) (r : A) (rows : List A)
      → Q r
      → All Q rows
      → All Q (insert_ordered le r rows)
  unfolding insert_ordered
  All-insert_ordered Q le r [] q h = (q, tt)
  All-insert_ordered Q le r (s ∷ rows) q (qs, h) = elim (Bool-cases (le r s)) [
    | inl e ↦ rw e (q, (qs, h))
    | inr e ↦ rw e (qs, All-insert_ordered Q le r rows q h)
  ]

  pub All-order_by :
      (Q : A → Type 0) (le : A → A → Bool) (rows : List A) → All Q rows → All Q (order_by le rows)
  unfolding order_by
  All-order_by Q le [] h = tt
  All-order_by Q le (r ∷ rows) (q, h) =
      All-insert_ordered Q le r (order_by le rows) q (All-order_by Q le rows h)

  insert_ordered-All :
      (Q : A → Type 0) (le : A → A → Bool) (r : A) (rows : List A)
      → All Q (insert_ordered le r rows)
      → Q r × All Q rows
  unfolding insert_ordered
  insert_ordered-All Q le r [] h = h
  insert_ordered-All Q le r (s ∷ rows) h = elim (Bool-cases (le r s)) [
    | inl e ↦ rw (insert_ordered, e) at h
    | inr e ↦
        let k : Q s × All Q (insert_ordered le r rows) = rw (insert_ordered, e) at h in
        let (q, rest) = insert_ordered-All Q le r rows k.1 in (q, (k.0, rest))
  ]

  -- what holds of each row of an ordered result holds of each row that was selected
  pub order_by-All :
      (Q : A → Type 0) (le : A → A → Bool) (rows : List A) → All Q (order_by le rows) → All Q rows
  unfolding order_by
  order_by-All Q le [] h = tt
  order_by-All Q le (r ∷ rows) h =
      let (q, rest) = insert_ordered-All Q le r (order_by le rows) h in
      (q, order_by-All Q le rows rest)

  pub select_all-All :
      (Q : A → Type 0) (p : A → Bool) (rows : List A)
      → All Q (select_all p rows)
      → All (λ r. p r ≡ true → Q r) rows
  unfolding select_all
  select_all-All Q p [] h = tt
  select_all-All Q p (r ∷ rows) h = elim (Bool-cases (p r)) [
    | inl e ↦
        let k : Q r × All Q (select_all p rows) = rw (select_all, e) at h in
        ((λ _. k.0), select_all-All Q p rows k.1)
    | inr e ↦
        let k : All Q (select_all p rows) = rw (select_all, e) at h in
        ((λ t. absurd (cc)), select_all-All Q p rows k)
  ]

  pub All-limit : (Q : A → Type 0) (n : ℕ) (rows : List A) → All Q rows → All Q (limit n rows)
  unfolding limit
  All-limit Q zero rows h = tt
  All-limit Q (suc n) [] h = tt
  All-limit Q (suc n) (r ∷ rows) (q, h) = (q, All-limit Q n rows h)

  pub All-beyond : (Q : A → Type 0) (n : ℕ) (rows : List A) → All Q rows → All Q (beyond n rows)
  unfolding beyond
  All-beyond Q zero rows h = h
  All-beyond Q (suc n) [] h = tt
  All-beyond Q (suc n) (r ∷ rows) (q, h) = All-beyond Q n rows h

  pub All-map :
      (P Q : A → Type 0) → ((a : A) → P a → Q a) → (rows : List A) → All P rows → All Q rows
  All-map P Q f [] h = tt
  All-map P Q f (r ∷ rows) (p, h) = (f r p, All-map P Q f rows h)

  pub All-each : (Q : A → Type 0) → ((a : A) → Q a) → (rows : List A) → All Q rows
  All-each Q f [] = tt
  All-each Q f (r ∷ rows) = (f r, All-each Q f rows)

  pub All-zip :
      (P Q : A → Type 0) (rows : List A) → All P rows → All Q rows → All (λ a. P a × Q a) rows
  All-zip P Q [] h k = tt
  All-zip P Q (r ∷ rows) (p, h) (q, k) = ((p, q), All-zip P Q rows h k)

  pub length-limit : (n : ℕ) (rows : List A) → length (limit n rows) ≤ n
  unfolding limit
  length-limit zero rows = omega arith
  length-limit (suc n) [] = omega arith
  length-limit (suc n) (r ∷ rows) = omega (arith, length-limit n rows)

  pub limit-beyond : (n : ℕ) (rows : List A) → limit n rows ++ beyond n rows ≡ rows
  unfolding limit beyond
  limit-beyond zero rows = refl
  limit-beyond (suc n) [] = refl
  limit-beyond (suc n) (r ∷ rows) = ap (r ∷◌) (limit-beyond n rows)

  -- no row is left out where the limit is not exceeded
  pub limit-all : (n : ℕ) (rows : List A) → length rows ≤ n → limit n rows ≡ rows
  unfolding limit
  limit-all zero [] h = refl
  limit-all zero (r ∷ rows) h = absurd (omega (arith, h))
  limit-all (suc n) [] h = refl
  limit-all (suc n) (r ∷ rows) h = ap (r ∷◌) (limit-all n rows (omega (arith, h)))

-- What ORDER BY needs of its test: of two rows one may stand first, and the test is transitive.
pub record IsOrder {ℓ} {A : Type ℓ} (le : A → A → Bool) : Type ℓ where
  pub total : (a b : A) → le a b ≡ false → le b a ≡ true
  pub trans : (a b c : A) → le a b ≡ true → le b c ≡ true → le a c ≡ true

-- no row stands behind one that must come later
abbrev pub Ordered {ℓ} : {A : Type ℓ} → (A → A → Bool) → List A → Type 0
Ordered le [] = Unit
Ordered le (r ∷ rows) = All (λ s. le r s ≡ true) rows × Ordered le rows

module _ {ℓ} {A : Type ℓ} (le : A → A → Bool) (order : IsOrder le) where
  All-below :
      (a b : A) (rows : List A)
      → le a b ≡ true
      → All (λ s. le b s ≡ true) rows
      → All (λ s. le a s ≡ true) rows
  All-below a b [] h k = tt
  All-below a b (s ∷ rows) h (e, k) = (order.trans a b s h e, All-below a b rows h k)

  insert_ordered-Ordered :
      (r : A) (rows : List A) → Ordered le rows → Ordered le (insert_ordered le r rows)
  unfolding insert_ordered
  insert_ordered-Ordered r [] h = (tt, tt)
  insert_ordered-Ordered r (s ∷ rows) (below, h) = elim (Bool-cases (le r s)) [
    | inl e ↦ rw e ((e, All-below r s rows e below), (below, h))
    | inr e ↦ rw e (
      All-insert_ordered (λ x. le s x ≡ true) le r rows (order.total r s e) below,
      insert_ordered-Ordered r rows h,
    )
  ]

  pub order_by-Ordered : (rows : List A) → Ordered le (order_by le rows)
  unfolding order_by
  order_by-Ordered [] = tt
  order_by-Ordered (r ∷ rows) = insert_ordered-Ordered r (order_by le rows) (order_by-Ordered rows)

  pub limit-before-beyond :
      (n : ℕ) (rows : List A)
      → Ordered le rows
      → All (λ u. All (λ c. le c u ≡ true) (limit n rows)) (beyond n rows)
  unfolding limit beyond
  limit-before-beyond zero rows h = All-each _ (λ u. tt) rows
  limit-before-beyond (suc n) [] h = tt
  limit-before-beyond (suc n) (r ∷ rows) (below, h) =
      All-zip (λ u. le r u ≡ true) _ (beyond n rows) (All-beyond (λ u. le r u ≡ true) n rows below)
        (limit-before-beyond n rows h)
