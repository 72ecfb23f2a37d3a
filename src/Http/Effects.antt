-- ===== src/Http/Effects.antt =====
-- What a request for a wager transaction does (wagering.go, `handleProcessWagerTransaction`).
use wager_ledger.Base.{
  ℕ, IsInt64, true, false, Bytes, str_eq, str_eq_sound, is_empty, Option, none, some, ◌≡◌, refl,
  sym, subst, Bool-cases, inl, inr,
}
use wager_ledger.Errors.{Result, ok, err}
use wager_ledger.Money.{Money, money_of}
use wager_ledger.Money.Json.{money_of-IsInt64}
use wager_ledger.Usecase.Monad.{Env}
use wager_ledger.Usecase.Outcomes.{Input}
use wager_ledger.Usecase.Process.{execute}
use wager_ledger.Idp.{Identity, has_role, KeySet}
use wager_ledger.Http.{Request, Response, problem, Server, Tokens}
use wager_ledger.Http.Wagering.{
  WageringRequest, provider, lacks_field, wagering_input, process_response, process_decoded,
  process_body, handle_process_wager_transaction, post_transaction,
}
use wager_ledger.Http.Guarded.{IsAuthentic, Guarded, chain-Guarded}
use wager_ledger.Books.Drift.{IsTable, Drift, Drift-refl, still}
use wager_ledger.Books.Runs.{KeepsBooks}
use wager_ledger.Books.Execution.{execute-Drift}

-- What `Execute` is given for a request, field by field: the body's texts, its amount, and the header's key.
pub record IsInputOf (req : WageringRequest) (key : Bytes) (m : Money) (input : Input)
    : Type 0 where
  pub provider_id : input.provider_id ≡ req.provider_id
  pub external_transaction_id : input.external_transaction_id ≡ req.external_transaction_id
  pub idempotency_key : input.idempotency_key ≡ key
  pub player_id : input.player_id ≡ req.player_id
  pub wallet_id : input.wallet_id ≡ req.wallet_id
  pub round_id : input.round_id ≡ req.round_id
  pub game_id : input.game_id ≡ req.game_id
  pub kind : input.kind ≡ req.kind
  pub amount : input.amount ≡ m
  pub reference : input.reference_external_transaction_id ≡ req.reference_external_transaction_id

-- What a request comes to: it is refused and leaves the tables alone, or `Execute` carries out what its body
-- says, for the provider that a token of the request proves, and the result answers it.
pub data Handled (env : Env) (decode : Bytes → Option WageringRequest) (tokens : Tokens)
    (r : Request) (s : Server) (x : Response × Server) : Type 0 where
  refused :
      (status : ℕ) (code : Bytes)
      → x.0 ≡ problem status code
      → x.1.world ≡ s.world
      → Handled env decode tokens r s x
  executed :
      (identity : Identity) (req : WageringRequest) (amount : Money) (input : Input)
      → IsAuthentic tokens r s.key_set x.1.key_set identity
      → has_role identity provider ≡ true
      → decode r.body ≡ some req
      → money_of req.money_json ≡ ok amount
      → lacks_field req ≡ false
      → req.provider_id ≡ identity.client_id
      → is_empty r.idempotency_key ≡ false
      → IsInputOf req r.idempotency_key amount input
      → x.0 ≡ process_response (execute env input s.world).0
      → x.1.world ≡ (execute env input s.world).1
      → Handled env decode tokens r s x

wagering_input-IsInputOf :
    (key : Bytes) (req : WageringRequest) (amount : Money)
    → IsInputOf req key amount (wagering_input key req amount)
unfolding wagering_input
wagering_input-IsInputOf key req amount = record {
  provider_id = refl;
  external_transaction_id = refl;
  idempotency_key = refl;
  player_id = refl;
  wallet_id = refl;
  round_id = refl;
  game_id = refl;
  kind = refl;
  amount = refl;
  reference = refl;
}

module _ (env : Env) (decode : Bytes → Option WageringRequest) (tokens : Tokens) (r : Request)
    (s : Server) (identity : Identity) (ks : KeySet)
    (authentic : IsAuthentic tokens r s.key_set ks identity)
    (is_provider : has_role identity provider ≡ true) where
  abbrev s' : Server
  s' = record s { key_set = ks }

  process_decoded-Handled :
      (req : WageringRequest) (x : Result Money)
      → decode r.body ≡ some req
      → is_empty r.idempotency_key ≡ false
      → money_of req.money_json ≡ x
      → Handled env decode tokens r s
          (process_decoded env decode identity r.idempotency_key req x s')
  unfolding process_decoded
  process_decoded-Handled req (err e) body keyed m = refused _ _ refl refl
  process_decoded-Handled req (ok amount) body keyed m = elim (Bool-cases (lacks_field req)) [
    | inl e ↦ rw e (refused _ _ refl refl)
    | inr e ↦ elim (Bool-cases (str_eq req.provider_id identity.client_id)) [
      | inl p ↦
          rw (e, p)
            (executed identity req amount (wagering_input r.idempotency_key req amount) authentic
              is_provider body m e (str_eq_sound req.provider_id identity.client_id p) keyed
              (wagering_input-IsInputOf r.idempotency_key req amount) refl refl)
      | inr p ↦ rw (e, p) (refused _ _ refl refl)
    ]
  ]

  process_body-Handled :
      (o : Option WageringRequest)
      → decode r.body ≡ o
      → is_empty r.idempotency_key ≡ false
      → Handled env decode tokens r s (process_body env decode identity r.idempotency_key o s')
  process_body-Handled none body keyed = refused _ _ refl refl
  process_body-Handled (some req) body keyed =
      process_decoded-Handled req (money_of req.money_json) body keyed refl

  handle-Handled :
      Handled env decode tokens r s
        (handle_process_wager_transaction env decode (some identity) r s')
  unfolding handle_process_wager_transaction
  handle-Handled = elim (Bool-cases (is_empty r.idempotency_key)) [
    | inl e ↦ rw e (refused _ _ refl refl)
    | inr e ↦ rw e (process_body-Handled (decode r.body) refl e)
  ]

module _ (env : Env) (decode : Bytes → Option WageringRequest) (tokens : Tokens) (r : Request)
    (s : Server) where
  Guarded-Handled :
      (x : Response × Server)
      → Guarded tokens provider (handle_process_wager_transaction env decode) r s x
      → Handled env decode tokens r s x
  Guarded-Handled x (Guarded.refused status code e w) = refused status code e w
  Guarded-Handled x (Guarded.let_through identity ks authentic is_provider e) =
      rw e (handle-Handled env decode tokens r s identity ks authentic is_provider)

  -- A request for a wager transaction is refused and leaves the tables as they are, or `Execute` carries it out
  -- and its result is the answer: then a token of the request, by the key in the cache of keys that it names,
  -- proves an identity with the role provider, the body is JSON with the required fields and an amount, its
  -- provider is that identity, and the input is, field by field, that of the body and the header's
  -- idempotency key, which is not empty.
  pub post_transaction-Handled :
      (context : Option Identity)
      → Handled env decode tokens r s (post_transaction env decode tokens context r s)
  unfolding post_transaction
  post_transaction-Handled context =
      Guarded-Handled _
        (chain-Guarded tokens provider (handle_process_wager_transaction env decode) r s context)

  Handled-Drift :
      (x : Response × Server)
      → KeepsBooks env
      → IsTable s.world.base.wallets
      → Handled env decode tokens r s x
      → Drift still s.world.base x.1.world.base
  Handled-Drift x keeps t (refused status code e same) = rw same (Drift-refl s.world.base t)
  Handled-Drift x keeps t (executed identity req amount input _ _ _ m _ _ _ is_input _ same) =
      rw same (
        execute-Drift env keeps input s.world t (
          subst (λ (a : Money). IsInt64 a.minor_units) (sym is_input.amount)
            (money_of-IsInt64 req.money_json m)))

  -- Whatever request comes, and however it is answered, the books stay kept, provided that the other transactions keep
  -- them and that the wallets have different ids and int64 columns at first.
  pub post_transaction-Drift :
      (context : Option Identity)
      → KeepsBooks env
      → IsTable s.world.base.wallets
      → Drift still s.world.base (post_transaction env decode tokens context r s).1.world.base
  post_transaction-Drift context keeps t =
      Handled-Drift _ keeps t (post_transaction-Handled context)
