-- ===== src/Http/Operations.antt =====
-- Who sees which operation of a provider (wagering.go, the GET handler by provider and external id).
use wager_ledger.Base.{
  ℕ, Bool, true, Bytes, str_eq_sound, Option, none, some, List, [], ◌∷◌, ◌≡◌, ◌⊎◌, refl, sym, subst,
  ◌∙◌, arith, Bool-cases, inl, inr,
}
use wager_ledger.Errors.{Result, ok, err}
use wager_ledger.Money.{from_minor_units}
use wager_ledger.Wagertx.{WagerTransaction, rehydrate}
use wager_ledger.Postgres.{
  TransactionRow, Db, select_one, deref, column_is, is_operation, scan_wager_tx,
  find_by_provider_and_external_id,
}
use wager_ledger.Usecase.Monad.{Env, on_pool}
use wager_ledger.Idp.{Identity, has_role, KeySet}
use wager_ledger.Http.{
  Request, TransactionResponse, success, transaction, Server, Tokens, authenticated, pass_on,
  authenticate, chain,
}
use wager_ledger.Http.Wagering.{
  internal, provider, forbidden, transaction_response, may_ask, shown,
  handle_get_by_provider_and_external_id, get_transaction_by_external_id,
}
use wager_ledger.Http.Guarded.{IsAuthentic, pair-IsAuthentic}
use wager_ledger.Http.Owners.{lookup_problem-no_success}

select_one-meets :
    {A : Type 0} (p : A → Bool) (rs : List A) {r : A} → select_one p rs ≡ some r → p r ≡ true
unfolding select_one
select_one-meets p [] h = cc
select_one-meets p (s ∷ rs) {r} h = elim (Bool-cases (p s)) [
  | inl e ↦
      let k : some s ≡ some r = rw e at h in
      let same : s ≡ r = ground (arith, k) in subst (λ v. p v ≡ true) same e
  | inr e ↦ let k : select_one p rs ≡ some r = rw e at h in select_one-meets p rs k
]

column_is-deref : (o : Option Bytes) (s : Bytes) → column_is o s ≡ true → deref o ≡ s
unfolding deref
column_is-deref none s h = cc
column_is-deref (some t) s h = str_eq_sound t s h

scan-operation :
    (o : Option TransactionRow) {tx : WagerTransaction}
    → scan_wager_tx o ≡ ok tx
    → (r : TransactionRow) × (o ≡ some r)
      × (tx.provider_id ≡ deref r.provider_id)
      × (tx.external_id ≡ deref r.external_transaction_id)
unfolding scan_wager_tx from_minor_units rehydrate
scan-operation none h = cc
scan-operation (some r) h = (r, refl, ground arith, ground arith)

find-operation :
    (provider_id external_id : Bytes) (db : Db) {tx : WagerTransaction}
    → find_by_provider_and_external_id provider_id external_id db ≡ ok tx
    → (tx.provider_id ≡ provider_id) × (tx.external_id ≡ external_id)
unfolding find_by_provider_and_external_id
find-operation provider_id external_id db h =
    let (r, found, p, x) =
      scan-operation (select_one (is_operation provider_id external_id) db.transactions) h in
    let meets = select_one-meets (is_operation provider_id external_id) db.transactions found in
    (
      p ∙ column_is-deref r.provider_id provider_id (ground (arith, meets)),
      x ∙ column_is-deref r.external_transaction_id external_id (ground (arith, meets)),
    )

-- The transaction is the operation that was asked for, and the identity is internal, or the provider that was asked
-- about.
abbrev pub IsAsked : Request → Identity → TransactionResponse → Type 0
IsAsked r identity t =
    (t.provider_id ≡ r.path_provider_id)
    × (t.external_transaction_id ≡ r.path_external_id)
    × ((has_role identity internal ≡ true)
        ⊎ ((has_role identity provider ≡ true) × (identity.client_id ≡ r.path_provider_id)))

may_ask-cases :
    (identity : Identity) (provider_id : Bytes)
    → may_ask (some identity) provider_id ≡ true
    → (has_role identity internal ≡ true)
      ⊎ ((has_role identity provider ≡ true) × (identity.client_id ≡ provider_id))
unfolding may_ask
may_ask-cases identity provider_id h = elim (Bool-cases (has_role identity internal)) [
  | inl e ↦ inl e
  | inr e ↦
      inr (ground (arith, h, e), str_eq_sound identity.client_id provider_id (ground (arith, h, e)))
]

shown-operation :
    (x : Result WagerTransaction) {n : ℕ} {t : TransactionResponse}
    → shown x ≡ success n (transaction t)
    → (tx : WagerTransaction) × (x ≡ ok tx)
      × (t.provider_id ≡ tx.provider_id)
      × (t.external_transaction_id ≡ tx.external_id)
unfolding transaction_response
shown-operation (err e) h = absurd (lookup_problem-no_success e h)
shown-operation (ok tx) h = (tx, refl, ground (arith, h), ground (arith, h))

module _ (env : Env) (tokens : Tokens) (r : Request) (s : Server) where
  handle-IsAsked :
      (identity : Identity) (s' : Server) {n : ℕ} {t : TransactionResponse}
      → (handle_get_by_provider_and_external_id env (some identity) r s').0
        ≡ success n (transaction t)
      → IsAsked r identity t
  unfolding handle_get_by_provider_and_external_id
  handle-IsAsked identity s' {n} {t} h =
      elim (Bool-cases (may_ask (some identity) r.path_provider_id)) [
        | inl e ↦
            let k : shown (
                  find_by_provider_and_external_id r.path_provider_id r.path_external_id
                    (on_pool env s'.world).db)
                ≡ success n (transaction t) =
              rw e at h in
            let (tx, found, p, x) = shown-operation _ k in
            let (q, y) = find-operation _ _ _ found in
            (p ∙ q, x ∙ y, may_ask-cases identity r.path_provider_id e)
        | inr e ↦ let k : forbidden ≡ success n (transaction t) = rw e at h in cc
      ]

  handle-key_set :
      (identity : Identity) (s' : Server)
      → (handle_get_by_provider_and_external_id env (some identity) r s').1.key_set ≡ s'.key_set
  unfolding handle_get_by_provider_and_external_id
  handle-key_set identity s' = elim (Bool-cases (may_ask (some identity) r.path_provider_id)) [
    | inl e ↦ rw e refl
    | inr e ↦ rw e refl
  ]

  passed-IsAsked :
      (x : Option Identity × KeySet) {n : ℕ} {t : TransactionResponse}
      → authenticated tokens r s.key_set ≡ x
      → (pass_on tokens (handle_get_by_provider_and_external_id env) x r s).0
        ≡ success n (transaction t)
      → (identity : Identity) × IsAuthentic tokens r s.key_set
          (pass_on tokens (handle_get_by_provider_and_external_id env) x r s).1.key_set
          identity
        × IsAsked r identity t
  passed-IsAsked (none, ks) e h = cc
  passed-IsAsked (some identity, ks) e h = (
    identity,
    subst (λ k. IsAuthentic tokens r s.key_set k identity)
        (sym (handle-key_set identity (record s { key_set = ks })))
        (pair-IsAuthentic tokens r s identity ks e),
    handle-IsAsked identity (record s { key_set = ks }) h,
  )

  -- Whoever gets to see a wager transaction by its provider and external id sees the one with these two, and
  -- has proved by a token of the request, and by the key in the cache of keys that the token names, to be
  -- internal, or to be this provider.
  pub get_transaction_by_external_id-IsAsked :
      (context : Option Identity) {n : ℕ} {t : TransactionResponse}
      → (get_transaction_by_external_id env tokens context r s).0 ≡ success n (transaction t)
      → (identity : Identity) × IsAuthentic tokens r s.key_set
          (get_transaction_by_external_id env tokens context r s).1.key_set
          identity
        × IsAsked r identity t
  unfolding get_transaction_by_external_id chain authenticate
  get_transaction_by_external_id-IsAsked context h =
      passed-IsAsked (authenticated tokens r s.key_set) refl h
