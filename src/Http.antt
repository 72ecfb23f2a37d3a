-- ===== src/Http.antt =====
-- internal/infra/http and internal/infra/idp/middleware.go: requests, responses, and the middleware
-- that lets a request through to its handler. The messages of error responses are left out.
pub mod Wagering
pub mod Wallets
pub mod Guarded
pub mod Owners
pub mod Operations
pub mod Effects
use wager_ledger.Base.{
  ℕ, ℤ, Bool, true, false, not, Bytes, codes, is_empty, Option, none, some, List, [], ◌∷◌,
  if◌then◌else◌,
}
use wager_ledger.Money.{Money}
use wager_ledger.Wallet.{Time}
use wager_ledger.Usecase.Monad.{World}
use wager_ledger.Usecase.Outcomes.{Output}
use wager_ledger.Usecase.OpenWallet.{OpenOutput}
use wager_ledger.Usecase.Reconcile.{ReconcileOutput}
use wager_ledger.Idp.{
  Identity, has_role, Claims, identity_of, extract_bearer_token, PublicKey, KeyCall, KeySet,
  find_key,
}

-- `http.Request`, as far as the handlers read it; a header or path value that is missing is ""
pub record Request : Type 0 where
  pub authorization : Bytes
  pub idempotency_key : Bytes
  pub body : Bytes
  pub path_id : Bytes
  pub path_provider_id : Bytes
  pub path_external_id : Bytes
  pub query_cursor : Bytes
  pub query_limit : Bytes

-- `wagerTransactionResponse`
pub record TransactionResponse : Type 0 where
  pub transaction_id : Bytes
  pub provider_id : Bytes
  pub external_transaction_id : Bytes
  pub wallet_id : Bytes
  pub player_id : Bytes
  pub kind : Bytes
  pub status : Bytes
  pub amount : Money
  pub failure_code : Bytes
  pub financial_result : Option Money

-- `walletResponse`
pub record WalletResponse : Type 0 where
  pub id : Bytes
  pub player_id : Bytes
  pub balance : Money
  pub version : ℤ

-- `ledgerEntryResponse`; the time is the one that its text shows
pub record EntryResponse : Type 0 where
  pub id : Bytes
  pub transaction_id : Bytes
  pub direction : Bytes
  pub amount : Money
  pub balance_before : Money
  pub balance_after : Money
  pub created_at : Time

pub data Body : Type 0 where
  wagering : Output → Body
  transaction : TransactionResponse → Body
  wallet : WalletResponse → Body
  ledger : List EntryResponse → Bytes → Body
  reconciliation : ReconcileOutput → Body

-- a status with the error's code, or with the body of a success
pub data Response : Type 0 where
  problem : ℕ → Bytes → Response
  success : ℕ → Body → Response

-- what the handlers change: the tables and the cache of keys
pub record Server : Type 0 where
  pub world : World
  pub key_set : KeySet

-- The identity is that of the request's context.
abbrev pub Handler : Type 0
Handler = Option Identity → Request → Server → Response × Server

-- What the middleware takes from outside: base64, the key id in the header of a token that may be
-- verified (golang-jwt), the claims of a token that a key signs, for the issuer and the audience, and
-- in time, and what happens in a call of `Key` besides.
pub record Tokens : Type 0 where
  pub decode_base64 : Bytes → Option Bytes
  pub key_id : Bytes → Option Bytes
  pub verified : PublicKey → Bytes → Option Claims
  pub call : KeySet → KeyCall

abbrev pub unauthorized : Response
unauthorized = problem 401 (codes "Unauthorized")

module _ (tokens : Tokens) where
  -- the key of a token with the key id, and the cache
  abbrev pub key_for : Option Bytes → KeySet → Option PublicKey × KeySet
  key_for none ks = (none, ks)
  key_for (some kid) ks =
      if is_empty kid then (none, ks) else find_key tokens.decode_base64 (tokens.call ks) kid ks

  abbrev pub claims_by : Option PublicKey → Bytes → Option Claims
  claims_by none token = none
  claims_by (some key) token = tokens.verified key token

  -- `jwt.ParseWithClaims` with the key function of `Authenticate`
  unfoldable pub parse_with_claims : Option Bytes → KeySet → Option Claims × KeySet
  parse_with_claims none ks = (none, ks)
  parse_with_claims (some token) ks =
      let (key, ks') = key_for (tokens.key_id token) ks in (claims_by key token, ks')

  -- who makes the request, if a token says so
  unfoldable pub authenticated : Request → KeySet → Option Identity × KeySet
  unfolding parse_with_claims
  authenticated r ks =
      let (claims, ks') = parse_with_claims (extract_bearer_token r.authorization) ks in
      (elim claims [ none ↦ none | some c ↦ some (identity_of c) ], ks')

  abbrev pub pass_on : Handler → Option Identity × KeySet → Request → Server → Response × Server
  pass_on next (none, ks) r s = (unauthorized, record s { key_set = ks })
  pass_on next (some identity, ks) r s = next (some identity) r (record s { key_set = ks })

  -- `Authenticate`
  unfoldable pub authenticate : Handler → Handler
  unfolding authenticated
  authenticate next context r s = pass_on next (authenticated r s.key_set) r s

-- `!ok || !identity.HasRole(role)`
abbrev pub lacks_role : Bytes → Option Identity → Bool
lacks_role role none = true
lacks_role role (some identity) = not (has_role identity role)

-- `RequireRole`
unfoldable pub require_role : Bytes → Handler → Handler
require_role role next context r s =
    if lacks_role role context then (problem 403 (codes "Forbidden"), s) else next context r s

-- `chain`: the first middleware is the outermost
unfoldable pub chain : Handler → List (Handler → Handler) → Handler
chain h [] = h
chain h (middleware ∷ more) = middleware (chain h more)
