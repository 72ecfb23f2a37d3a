-- ===== src/Http/Owners.antt =====
-- Who sees a wager transaction (wagering.go, the two GET handlers).
use wager_ledger.Base.{
  ℕ, true, false, str_eq_sound, is_empty, Option, none, some, ◌≡◌, ◌⊎◌, refl, subst, arith,
  Bool-cases, inl, inr,
}
use wager_ledger.Errors.{Error, PortsError, ports, Result, ok, err}
use wager_ledger.Wagertx.{WagerTransaction}
use wager_ledger.Postgres.{find_transaction}
use wager_ledger.Usecase.Monad.{Env, on_pool}
use wager_ledger.Idp.{Identity, has_role, KeySet}
use wager_ledger.Http.{
  Request, TransactionResponse, Body, success, transaction, Server, Tokens, authenticated, pass_on,
  authenticate, chain,
}
use wager_ledger.Http.Wagering.{
  internal, provider, forbidden, transaction_response, lookup_problem, may_see, show_transaction,
  shown_if_owned, handle_get_wager_transaction, get_transaction,
}
use wager_ledger.Http.Guarded.{IsAuthentic, pair-IsAuthentic}

-- The identity is internal, or the provider of the transaction.
abbrev pub Owns : Identity → TransactionResponse → Type 0
Owns identity t =
    (has_role identity internal ≡ true)
    ⊎ ((has_role identity provider ≡ true)
        × (is_empty t.provider_id ≡ false)
        × (t.provider_id ≡ identity.client_id))

may_see-Owns :
    (identity : Identity) (tx : WagerTransaction)
    → may_see (some identity) tx ≡ true
    → Owns identity (transaction_response tx)
unfolding may_see transaction_response
may_see-Owns identity tx h = elim (Bool-cases (has_role identity internal)) [
  | inl e ↦ inl e
  | inr e ↦ inr (
    ground (arith, h, e),
    ground (arith, h, e),
    str_eq_sound tx.provider_id identity.client_id (ground (arith, h, e)),
  )
]

pub lookup_problem-no_success : (e : Error) {n : ℕ} {b : Body} → lookup_problem e ≡ success n b → ⊥
lookup_problem-no_success (ports PortsError.not_found) h = cc
lookup_problem-no_success _ h = cc

shown-Owns :
    (identity : Identity) (x : Result WagerTransaction) {n : ℕ} {t : TransactionResponse}
    → shown_if_owned (some identity) x ≡ success n (transaction t)
    → Owns identity t
shown-Owns identity (err e) h = absurd (lookup_problem-no_success e h)
shown-Owns identity (ok tx) {n} {t} h = elim (Bool-cases (may_see (some identity) tx)) [
  | inl e ↦
      let k : show_transaction tx ≡ success n (transaction t) = rw e at h in
      let same : transaction_response tx ≡ t = ground (arith, k) in
      subst (Owns identity) same (may_see-Owns identity tx e)
  | inr e ↦ let k : forbidden ≡ success n (transaction t) = rw e at h in cc
]

module _ (env : Env) (tokens : Tokens) (r : Request) (s : Server) where
  passed-Owns :
      (x : Option Identity × KeySet) {n : ℕ} {t : TransactionResponse}
      → authenticated tokens r s.key_set ≡ x
      → (pass_on tokens (handle_get_wager_transaction env) x r s).0 ≡ success n (transaction t)
      → (identity : Identity) × IsAuthentic tokens r s.key_set
          (pass_on tokens (handle_get_wager_transaction env) x r s).1.key_set
          identity
        × Owns identity t
  unfolding handle_get_wager_transaction
  passed-Owns (none, ks) e h = cc
  passed-Owns (some identity, ks) e h = (
    identity,
    pair-IsAuthentic tokens r s identity ks e,
    shown-Owns identity (find_transaction r.path_id (on_pool env s.world).db) h,
  )

  -- Whoever gets to see a wager transaction has proved by a token of the request, and by the key in the cache
  -- of keys that the token names, to be internal, or to be the provider of the transaction.
  pub get_transaction-Owns :
      (context : Option Identity) {n : ℕ} {t : TransactionResponse}
      → (get_transaction env tokens context r s).0 ≡ success n (transaction t)
      → (identity : Identity) × IsAuthentic tokens r s.key_set
          (get_transaction env tokens context r s).1.key_set
          identity
        × Owns identity t
  unfolding get_transaction chain authenticate
  get_transaction-Owns context h = passed-Owns (authenticated tokens r s.key_set) refl h
