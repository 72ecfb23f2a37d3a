-- ===== src/Http/Wallets.antt =====
-- internal/infra/http/wallets.go: the handlers of wallets.
use wager_ledger.Base.{
  ℤ, pos, ltb_ℤ, ◌||◌, Bytes, codes, is_empty, Option, none, some, List, [], ◌∷◌, if◌then◌else◌,
}
use wager_ledger.Errors.{Error, UsecaseError, usecase, Result, ok, err}
use wager_ledger.Money.{Money, MoneyJson, money_of}
use wager_ledger.Wallet.{Wallet}
use wager_ledger.Ledger.{Entry, direction_text}
use wager_ledger.Postgres.{
  find_wallet, Codec, Listing, invalid_cursor, failed, page, list_by_wallet,
}
use wager_ledger.Usecase.Monad.{Env, World, on_pool}
use wager_ledger.Usecase.OpenWallet.{OpenOutput, open_wallet}
use wager_ledger.Usecase.Reconcile.{ReconcileOutput, reconcile}
use wager_ledger.Http.{
  Request, WalletResponse, EntryResponse, Response, problem, success, wallet, ledger,
  reconciliation, Server, Handler, Tokens, authenticate, require_role, chain,
}
use wager_ledger.Http.Wagering.{internal, invalid_body, lookup_problem}

-- `openWalletRequest`, with the money as its text still
pub record OpenWalletRequest : Type 0 where
  pub player_id : Bytes
  pub money_json : Option (Option MoneyJson)

abbrev pub open_problem : Error → Response
open_problem (usecase UsecaseError.wallet_already_exists) =
    problem 409 (codes "wallet_already_exists")
open_problem e = problem 400 (codes "invalid_request")

unfoldable pub opened_response : OpenOutput → WalletResponse
opened_response out = record {
  id = out.id;
  player_id = out.player_id;
  balance = out.balance;
  version = out.version;
}

abbrev pub open_response : Result OpenOutput → Response
open_response (err e) = open_problem e
open_response (ok out) = success 201 (wallet (opened_response out))

abbrev pub opened_in : Server → Result OpenOutput × World → Response × Server
opened_in s (r, w) = (open_response r, record s { world = w })

unfoldable pub wallet_response : Wallet → WalletResponse
wallet_response w = record {
  id = w.id;
  player_id = w.player_id;
  balance = w.balance;
  version = w.version;
}

abbrev pub shown_wallet : Result Wallet → Response
shown_wallet (err e) = lookup_problem e
shown_wallet (ok w) = success 200 (wallet (wallet_response w))

-- `maxLedgerPageSize`
abbrev pub max_ledger_page_size : ℤ
max_ledger_page_size = pos 200

-- the limit that was asked for, 50 without one; `none` for a limit that is refused
abbrev pub checked_limit : Option ℤ → Option ℤ
checked_limit none = none
checked_limit (some parsed) =
    if ltb_ℤ parsed (pos 1) || ltb_ℤ max_ledger_page_size parsed then none else some parsed

unfoldable pub entry_response : Entry → EntryResponse
entry_response e = record {
  id = e.id;
  transaction_id = e.transaction_id;
  direction = direction_text e.direction;
  amount = e.amount;
  balance_before = e.balance_before;
  balance_after = e.balance_after;
  created_at = e.created_at;
}

unfoldable pub entry_responses : List Entry → List EntryResponse
unfolding entry_response
entry_responses [] = []
entry_responses (e ∷ es) = entry_response e ∷ entry_responses es

abbrev pub listing_response : Listing → Response
listing_response (page entries next_cursor) =
    success 200 (ledger (entry_responses entries) next_cursor)
listing_response invalid_cursor = problem 400 (codes "invalid_cursor")
listing_response (failed e) = problem 400 (codes "invalid_cursor")

abbrev pub shown_report : Result ReconcileOutput → Response
shown_report (err e) = lookup_problem e
shown_report (ok out) = success 200 (reconciliation out)

-- a route that the role internal alone may take
unfoldable pub for_internal : Tokens → Handler → Handler
for_internal tokens h = chain h (authenticate tokens ∷ require_role internal ∷ [])

-- The parameters are what encoding/json makes of a body, `strconv.Atoi`, with `none` for an error, and the texts
-- of times and cursors.
module _ (env : Env) (decode : Bytes → Option OpenWalletRequest) (atoi : Bytes → Option ℤ)
    (codec : Codec) where
  abbrev pub open_decoded : OpenWalletRequest → Result Money → Server → Response × Server
  open_decoded req (err e) s = (invalid_body, s)
  open_decoded req (ok amount) s =
      if is_empty req.player_id
      then (invalid_body, s)
      else opened_in s
          (open_wallet env (record { player_id = req.player_id; initial_balance = amount }) s.world)

  abbrev pub open_body : Option OpenWalletRequest → Server → Response × Server
  open_body none s = (invalid_body, s)
  open_body (some req) s = open_decoded req (money_of req.money_json) s

  unfoldable pub handle_open_wallet : Handler
  handle_open_wallet context r s = open_body (decode r.body) s

  unfoldable pub handle_get_wallet : Handler
  handle_get_wallet context r s =
      let w = on_pool env s.world in
      (shown_wallet (find_wallet r.path_id w.db), record s { world = w })

  unfoldable pub requested_limit : Bytes → Option ℤ
  requested_limit raw = if is_empty raw then some (pos 50) else checked_limit (atoi raw)

  abbrev pub page_for : Request → Server → Option ℤ → Response × Server
  page_for r s none = (problem 400 (codes "invalid_request"), s)
  page_for r s (some wanted) =
      let w = on_pool env s.world in
      (
        listing_response (list_by_wallet codec r.path_id r.query_cursor wanted w.db),
        record s { world = w },
      )

  unfoldable pub handle_get_wallet_ledger : Handler
  unfolding requested_limit entry_responses
  handle_get_wallet_ledger context r s = page_for r s (requested_limit r.query_limit)

  unfoldable pub handle_reconcile_wallet : Handler
  handle_reconcile_wallet context r s =
      let w = on_pool env s.world in
      (shown_report (reconcile r.path_id w.db), record s { world = w })

  -- `RegisterWalletRoutes`
  unfoldable pub post_wallet : Tokens → Handler
  unfolding for_internal
  post_wallet tokens = for_internal tokens handle_open_wallet

  unfoldable pub get_wallet : Tokens → Handler
  unfolding for_internal
  get_wallet tokens = for_internal tokens handle_get_wallet

  unfoldable pub get_wallet_ledger : Tokens → Handler
  unfolding for_internal
  get_wallet_ledger tokens = for_internal tokens handle_get_wallet_ledger

  unfoldable pub post_reconciliation : Tokens → Handler
  unfolding for_internal
  post_reconciliation tokens = for_internal tokens handle_reconcile_wallet
