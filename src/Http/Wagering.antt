-- ===== src/Http/Wagering.antt =====
-- internal/infra/http/wagering.go: the handlers of wager transactions.
use wager_ledger.Base.{
  Bool, false, not, ◌&&◌, ◌||◌, Bytes, codes, str_eq, is_empty, Option, none, some, [], ◌∷◌,
  if◌then◌else◌,
}
use wager_ledger.Errors.{Error, PortsError, ports, UsecaseError, usecase, Result, ok, err}
use wager_ledger.Money.{Money, MoneyJson, money_of}
use wager_ledger.Wagertx.{WagerTransaction, kind_text, status_text, is_input_validation_error}
use wager_ledger.Postgres.{find_transaction, find_by_provider_and_external_id}
use wager_ledger.Usecase.Monad.{Env, World, on_pool}
use wager_ledger.Usecase.Outcomes.{Input, Output}
use wager_ledger.Usecase.Process.{execute}
use wager_ledger.Idp.{Identity, has_role}
use wager_ledger.Http.{
  TransactionResponse, Response, problem, success, transaction, wagering, Server, Handler, Tokens,
  authenticate, require_role, chain,
}

-- `wageringRequest`, with the money as its text still
pub record WageringRequest : Type 0 where
  pub provider_id : Bytes
  pub external_transaction_id : Bytes
  pub player_id : Bytes
  pub wallet_id : Bytes
  pub round_id : Bytes
  pub game_id : Bytes
  pub kind : Bytes
  pub money_json : Option (Option MoneyJson)
  pub reference_external_transaction_id : Bytes

abbrev pub provider : Bytes
provider = codes "provider"

abbrev pub internal : Bytes
internal = codes "internal"

-- a required field is missing
unfoldable pub lacks_field : WageringRequest → Bool
lacks_field req =
    is_empty req.provider_id
    || is_empty req.external_transaction_id
    || is_empty req.player_id
    || is_empty req.wallet_id
    || is_empty req.round_id
    || is_empty req.game_id
    || is_empty req.kind

unfoldable pub wagering_input : Bytes → WageringRequest → Money → Input
wagering_input idempotency_key req amount = record {
  provider_id = req.provider_id;
  external_transaction_id = req.external_transaction_id;
  idempotency_key = idempotency_key;
  player_id = req.player_id;
  wallet_id = req.wallet_id;
  round_id = req.round_id;
  game_id = req.game_id;
  kind = req.kind;
  amount = amount;
  reference_external_transaction_id = req.reference_external_transaction_id;
}

-- `writeProcessWagerTransactionError`; the cases of a context that is done do not occur
unfoldable pub process_problem : Error → Response
process_problem (usecase UsecaseError.idempotency_conflict) =
    problem 409 (codes "idempotency_conflict")
process_problem (usecase UsecaseError.unsupported_kind) = problem 501 (codes "unsupported_kind")
process_problem (usecase UsecaseError.wallet_player_mismatch) =
    problem 400 (codes "wallet_player_mismatch")
process_problem (usecase UsecaseError.too_many_retries) = problem 503 (codes "too_many_retries")
process_problem (ports PortsError.not_found) = problem 404 (codes "not_found")
process_problem e =
    if is_input_validation_error e
    then problem 400 (codes "invalid_body")
    else problem 500 (codes "internal_error")

abbrev pub process_response : Result Output → Response
process_response (ok out) = success (if out.idempotent_replay then 200 else 201) (wagering out)
process_response (err e) = process_problem e

abbrev pub run_in : Server → (Result Output × World) → Response × Server
run_in s (r, w) = (process_response r, record s { world = w })

abbrev pub invalid_body : Response
invalid_body = problem 400 (codes "invalid_body")

abbrev pub forbidden : Response
forbidden = problem 403 (codes "forbidden")

unfoldable pub transaction_response : WagerTransaction → TransactionResponse
transaction_response tx = record {
  transaction_id = tx.id;
  provider_id = tx.provider_id;
  external_transaction_id = tx.external_id;
  wallet_id = tx.wallet_id;
  player_id = tx.player_id;
  kind = kind_text tx.kind;
  status = status_text tx.status;
  amount = tx.amount;
  failure_code = tx.failure_code;
  financial_result = tx.financial_result;
}

abbrev pub lookup_problem : Error → Response
lookup_problem (ports PortsError.not_found) = problem 404 (codes "not_found")
lookup_problem e = problem 500 (codes "internal_error")

-- the test of `handleGetWagerTransaction`
unfoldable pub may_see : Option Identity → WagerTransaction → Bool
may_see none tx = false
may_see (some identity) tx = not (
    not (has_role identity internal)
    && (not (has_role identity provider)
        || is_empty tx.provider_id
        || not (str_eq tx.provider_id identity.client_id)))

-- the test of `handleGetWagerTransactionByProviderAndExternalID`
unfoldable pub may_ask : Option Identity → Bytes → Bool
may_ask none provider_id = false
may_ask (some identity) provider_id = not (
    not (has_role identity internal)
    && (not (has_role identity provider) || not (str_eq identity.client_id provider_id)))

abbrev pub show_transaction : WagerTransaction → Response
show_transaction tx = success 200 (transaction (transaction_response tx))

abbrev pub shown_if_owned : Option Identity → Result WagerTransaction → Response
shown_if_owned context (err e) = lookup_problem e
shown_if_owned context (ok tx) = if may_see context tx then show_transaction tx else forbidden

abbrev pub shown : Result WagerTransaction → Response
shown (err e) = lookup_problem e
shown (ok tx) = show_transaction tx

module _ (env : Env) where
  unfoldable pub handle_get_wager_transaction : Handler
  handle_get_wager_transaction context r s =
      let w = on_pool env s.world in
      (shown_if_owned context (find_transaction r.path_id w.db), record s { world = w })

  unfoldable pub handle_get_by_provider_and_external_id : Handler
  handle_get_by_provider_and_external_id context r s =
      let w = on_pool env s.world in
      if may_ask context r.path_provider_id
      then (
        shown (find_by_provider_and_external_id r.path_provider_id r.path_external_id w.db),
        record s { world = w },
      )
      else (forbidden, s)

  -- `RegisterWageringRoutes`, as far as it registers the readers
  unfoldable pub get_transaction : Tokens → Handler
  get_transaction tokens = chain handle_get_wager_transaction (authenticate tokens ∷ [])

  unfoldable pub get_transaction_by_external_id : Tokens → Handler
  get_transaction_by_external_id tokens =
      chain handle_get_by_provider_and_external_id (authenticate tokens ∷ [])

-- The parameter is what encoding/json makes of a body, `none` for an error.
module _ (env : Env) (decode : Bytes → Option WageringRequest) where
  -- the tests behind the JSON
  unfoldable pub process_decoded :
      Identity → Bytes → WageringRequest → Result Money → Server → Response × Server
  unfolding wagering_input
  process_decoded identity key req (err e) s = (invalid_body, s)
  process_decoded identity key req (ok amount) s =
      if lacks_field req
      then (invalid_body, s)
      else if not (str_eq req.provider_id identity.client_id)
      then (forbidden, s)
      else run_in s (execute env (wagering_input key req amount) s.world)

  abbrev pub process_body : Identity → Bytes → Option WageringRequest → Server → Response × Server
  process_body identity key none s = (invalid_body, s)
  process_body identity key (some req) s =
      process_decoded identity key req (money_of req.money_json) s

  unfoldable pub handle_process_wager_transaction : Handler
  unfolding process_decoded
  handle_process_wager_transaction none r s = (problem 401 (codes "unauthorized"), s)
  handle_process_wager_transaction (some identity) r s =
      if is_empty r.idempotency_key
      then (problem 400 (codes "invalid_request"), s)
      else process_body identity r.idempotency_key (decode r.body) s

  -- `RegisterWageringRoutes`
  unfoldable pub post_transaction : Tokens → Handler
  post_transaction tokens =
      chain handle_process_wager_transaction (authenticate tokens ∷ require_role provider ∷ [])
