-- ===== src/Postgres/Queries/Strict.antt =====
-- Rows in an order that no two of them share: a query from a key on returns the rest of the table.
use wager_ledger.Base.{
  subst, Option, none, some, ℕ, zero, suc, Bool, true, false, not, ◌&&◌, List, [], ◌∷◌, All, ◌≡◌,
  refl, ap, sym, ◌∙◌, arith, if◌then◌else◌, Bool-cases, inl, inr,
}
use wager_ledger.Postgres.Queries.{select_all, insert_ordered, order_by, beyond}
use wager_ledger.Postgres.Queries.Ordered.{
  All-map, IsOrder, Ordered, order_by-Ordered, All-insert_ordered, All-order_by,
  All-select_all_kept,
}

-- the row with the number `m`, from 0 on
abbrev pub nth {ℓ} : {A : Type ℓ} → ℕ → List A → Option A
nth m [] = none
nth zero (r ∷ rows) = some r
nth (suc m) (r ∷ rows) = nth m rows

module _ {A : Type 0} where
  pub nth-All :
      (Q : A → Type 0) (m : ℕ) (rows : List A) {y : A} → All Q rows → nth m rows ≡ some y → Q y
  nth-All Q m [] h e = cc
  nth-All Q zero (r ∷ rows) h e = let same : r ≡ _ = ground (arith, e) in subst Q same h.0
  nth-All Q (suc m) (r ∷ rows) h e = nth-All Q m rows h.1 e

  pub select-true :
      (p : A → Bool) (rows : List A) → All (λ r. p r ≡ true) rows → select_all p rows ≡ rows
  unfolding select_all
  select-true p [] h = refl
  select-true p (r ∷ rows) (e, h) = rw e (ap (r ∷◌) (select-true p rows h))

  -- a condition behind another one
  pub select-and :
      (p q : A → Bool) (rows : List A)
      → select_all (λ r. p r && q r) rows ≡ select_all q (select_all p rows)
  unfolding select_all
  select-and p q [] = refl
  select-and p q (r ∷ rows) = elim (Bool-cases (p r)) [
    | inl e ↦ rw (e, select-and p q rows) refl
    | inr e ↦ rw (e, select-and p q rows) refl
  ]

  -- the weaker condition first changes nothing
  pub select-weaker :
      (p q : A → Bool) (rows : List A)
      → ((r : A) → q r ≡ true → p r ≡ true)
      → select_all q (select_all p rows) ≡ select_all q rows
  unfolding select_all
  select-weaker p q [] h = refl
  select-weaker p q (r ∷ rows) h = elim (Bool-cases (p r)) [
    | inl e ↦ rw (e, select-weaker p q rows h) refl
    | inr e ↦
        let out : q r ≡ false = elim (Bool-cases (q r)) [
          | inl k ↦ let t = h r k in cc
          | inr k ↦ k
        ] in
        rw (e, out) (select-weaker p q rows h)
  ]

module _ {A : Type 0} (le : A → A → Bool) where
  -- no two rows may stand either way round
  abbrev pub Apart : A → A → Type 0
  Apart r s = (le r s && le s r) ≡ false

  abbrev pub Distinct : List A → Type 0
  Distinct [] = Unit
  Distinct (r ∷ rows) = All (Apart r) rows × Distinct rows

  -- each row stands before those behind it, and none of them before it
  abbrev pub Strict : List A → Type 0
  Strict [] = Unit
  Strict (r ∷ rows) = All (λ s. (le r s ≡ true) × (le s r ≡ false)) rows × Strict rows

  module _ (order : IsOrder le) where
    not_before : (r s x : A) → le r s ≡ true → le x s ≡ false → le x r ≡ false
    not_before r s x h n = elim (Bool-cases (le x r)) [
      | inl e ↦ let k : le x s ≡ true = order.trans x r s e h in cc
      | inr e ↦ e
    ]

    before-All :
        (r s : A) (rows : List A)
        → le r s ≡ true
        → le s r ≡ false
        → All (λ x. (le s x ≡ true) × (le x s ≡ false)) rows
        → All (λ x. (le r x ≡ true) × (le x r ≡ false)) rows
    before-All r s [] h k all = tt
    before-All r s (x ∷ rows) h k ((e, n), all) =
        ((order.trans r s x h e, not_before r s x h n), before-All r s rows h k all)

    insert_ordered-Strict :
        (r : A) (rows : List A)
        → All (Apart r) rows
        → Strict rows
        → Strict (insert_ordered le r rows)
    unfolding insert_ordered
    insert_ordered-Strict r [] apart h = (tt, tt)
    insert_ordered-Strict r (s ∷ rows) (a, apart) (below, h) = elim (Bool-cases (le r s)) [
      | inl e ↦
          let later : le s r ≡ false = ground (arith, a, e) in
          rw e (((e, later), before-All r s rows e later below), (below, h))
      | inr e ↦ rw e (
        All-insert_ordered (λ x. (le s x ≡ true) × (le x s ≡ false)) le r rows
            (order.total r s e, e) below,
        insert_ordered-Strict r rows apart h,
      )
    ]

    pub order_by-Strict : (rows : List A) → Distinct rows → Strict (order_by le rows)
    unfolding order_by
    order_by-Strict [] h = tt
    order_by-Strict (r ∷ rows) (apart, h) =
        insert_ordered-Strict r (order_by le rows) (All-order_by (Apart r) le rows apart)
          (order_by-Strict rows h)

    insert_ordered-first :
        (r : A) (rows : List A)
        → All (λ x. le r x ≡ true) rows
        → insert_ordered le r rows ≡ r ∷ rows
    unfolding insert_ordered
    insert_ordered-first r [] h = refl
    insert_ordered-first r (s ∷ rows) (e, h) = rw e refl

    skipped :
        (p : A → Bool) (r s : A) (rows : List A)
        → le r s ≡ false
        → (if p s
            then s ∷ (if p r then insert_ordered le r (select_all p rows) else select_all p rows)
            else if p r
            then insert_ordered le r (select_all p rows)
            else select_all p rows)
          ≡ (if p r
              then insert_ordered le r (if p s then s ∷ select_all p rows else select_all p rows)
              else if p s
              then s ∷ select_all p rows
              else select_all p rows)
    unfolding insert_ordered
    skipped p r s rows e = elim (Bool-cases (p s)) [
      | inl es ↦ rw es (elim (Bool-cases (p r)) [ inl er ↦ rw (er, e) refl | inr er ↦ rw er refl ])
      | inr es ↦ rw es refl
    ]

    select-insert_ordered :
        (p : A → Bool) (r : A) (rows : List A)
        → Ordered le rows
        → select_all p (insert_ordered le r rows)
          ≡ (if p r then insert_ordered le r (select_all p rows) else select_all p rows)
    unfolding select_all insert_ordered
    select-insert_ordered p r [] h = refl
    select-insert_ordered p r (s ∷ rows) (below, h) = elim (Bool-cases (le r s)) [
      | inl e ↦
          let all : All (λ x. le r x ≡ true) (s ∷ rows) =
            (e, All-map _ _ (λ x k. order.trans r s x e k) rows below) in
          rw
            (
              e,
              insert_ordered-first r (select_all p (s ∷ rows))
                  (All-select_all_kept _ p (s ∷ rows) all),
            )
            refl
      | inr e ↦ rw (e, select-insert_ordered p r rows h) (skipped p r s rows e)
    ]

    -- WHERE and ORDER BY commute.
    pub select-order_by :
        (p : A → Bool) (rows : List A)
        → order_by le (select_all p rows) ≡ select_all p (order_by le rows)
    unfolding select_all order_by
    select-order_by p [] = refl
    select-order_by p (r ∷ rows) = sym (
        select-insert_ordered p r (order_by le rows) (order_by-Ordered le order rows)
        ∙ elim (Bool-cases (p r)) [
          | inl e ↦ rw (e, select-order_by p rows) refl
          | inr e ↦ rw (e, select-order_by p rows) refl
        ])

    pub Strict-select : (p : A → Bool) (rows : List A) → Strict rows → Strict (select_all p rows)
    unfolding select_all
    Strict-select p [] h = tt
    Strict-select p (r ∷ rows) (below, h) = elim (Bool-cases (p r)) [
      | inl e ↦ rw e (All-select_all_kept _ p rows below, Strict-select p rows h)
      | inr e ↦ rw e (Strict-select p rows h)
    ]

    reflexive : (r : A) → le r r ≡ true
    reflexive r = elim (Bool-cases (le r r)) [ inl e ↦ e | inr e ↦ order.total r r e ]

    -- From the row with a given number on, a strictly ordered list goes on with the rows that must
    -- come later.
    pub select-beyond :
        (m : ℕ) (rows : List A) (y : A)
        → Strict rows
        → nth m rows ≡ some y
        → select_all (λ r. not (le r y)) rows ≡ beyond (suc m) rows
    unfolding select_all beyond
    select-beyond m [] y h e = cc
    select-beyond zero (r ∷ rows) y (below, h) e =
        let same : r ≡ y = ground (arith, e) in
        subst (λ z. select_all (λ s. not (le s z)) (r ∷ rows) ≡ rows) same
          (rw (reflexive r)
            (select-true (λ s. not (le s r)) rows (All-map _ _ (λ s k. rw k.1 refl) rows below)))
    select-beyond (suc m) (r ∷ rows) y (below, h) e =
        let before = nth-All _ m rows below e in rw before.0 (select-beyond m rows y h e)
