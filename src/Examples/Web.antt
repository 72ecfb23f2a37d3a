-- ===== src/Examples/Web.antt =====
-- Requests with a token, to the routes of wager transactions.
use wager_ledger.Base.{
  pos, wrap64, All, List, sym, subst, arith, ◌⊎◌, inl, inr, Bytes, codes, str_eq, Option, none,
  some, [], ◌∷◌, ◌≡◌, refl,
}
use wager_ledger.Money.{from_minor_units, normalize_currency}
use wager_ledger.Wagertx
use wager_ledger.Wagertx.{bet, processed, kind_text, status_text}
use wager_ledger.Postgres.{
  Db, find_transaction, find_by_provider_and_external_id, scan_wager_tx, nullable_string, deref,
  select_one, transaction_row, nullable_time, timestamptz,
}
use wager_ledger.Usecase.Monad.{observe, on_pool}
use wager_ledger.Idp.{
  Identity, identity_of, extract_bearer_token, strip_prefix, PublicKey, unreachable, answered, Jwk,
  jwk_to_rsa_public_key, set_bytes, KeyCall, KeySet, lookup_key, find_key,
}
use wager_ledger.Idp.Trust.{IsTrustedJwk, IsTrustedCall, Sound, find_key-Sound}
use wager_ledger.Http.{
  Request, success, transaction, Server, Tokens, parse_with_claims, authenticated, authenticate,
  require_role, chain,
}
use wager_ledger.Http.Wagering.{
  WageringRequest, provider, may_see, may_ask, handle_get_by_provider_and_external_id,
  get_transaction_by_external_id, transaction_response, handle_get_wager_transaction,
  get_transaction, post_transaction,
}
use wager_ledger.Http.Guarded.{IsAuthentic, Guarded, chain-Guarded}
use wager_ledger.Http.Owners.{Owns, get_transaction-Owns}
use wager_ledger.Http.Operations.{IsAsked, get_transaction_by_external_id-IsAsked}
use wager_ledger.Http.Effects.{Handled, post_transaction-Handled, post_transaction-Drift}
use wager_ledger.Books.Drift.{Drift, still}
use wager_ledger.Examples.Store.{books}
use wager_ledger.Examples.Cases.{
  alone, alone-KeepsBooks, at_start, outcome, with_outcome, books-IsTable,
}

abbrev key : PublicKey
key = record { modulus = 3_233; exponent = pos 17 }

abbrev key_set : KeySet
key_set = record { keys = (codes "k", key) ∷ []; last_refresh = pos 0 }

-- every token is signed by the key "k", for the provider "pr"
abbrev tokens : Tokens
tokens = record {
  decode_base64 = λ s. some s;
  key_id = λ token. some (codes "k");
  verified = λ by token.
      some (record {
        subject = codes "s";
        authorized_party = codes "pr";
        realm_roles = provider ∷ [];
      });
  call = λ ks. record {
    read_at = pos 1;
    fetched = unreachable;
    during = λ k. k;
    refreshed_at = pos 2;
    after = λ k. k;
  };
}

abbrev server : Db → Server
server db = record { world = at_start db; key_set = key_set }

abbrev asked : Request
asked = record {
  authorization = codes "Bearer t";
  idempotency_key = codes "k";
  body = codes "{}";
  path_id = codes "t";
  path_provider_id = [];
  path_external_id = [];
  query_cursor = [];
  query_limit = [];
}

abbrev posted : Bytes → Option WageringRequest
posted body = some (record {
  provider_id = codes "pr";
  external_transaction_id = codes "x";
  player_id = codes "p";
  wallet_id = codes "w";
  round_id = codes "r";
  game_id = codes "g";
  kind = codes "BET";
  money_json = some (some (record { amount = codes "2.50"; currency = codes "USD" }));
  reference_external_transaction_id = [];
})

post_transaction-Handled_example :
    Handled alone posted tokens asked
      (server books)
      (post_transaction alone posted tokens none asked (server books))
post_transaction-Handled_example =
    post_transaction-Handled alone posted tokens asked (server books) none

post_transaction-Drift_example :
    Drift still books (post_transaction alone posted tokens none asked (server books)).1.world.base
post_transaction-Drift_example =
    post_transaction-Drift alone posted tokens asked (server books) none alone-KeepsBooks
      books-IsTable

chain-Guarded_example :
    Guarded tokens provider (handle_get_wager_transaction alone) asked (server books) (
      chain
        (handle_get_wager_transaction alone)
        (authenticate tokens ∷ require_role provider ∷ [])
        none
        asked
        (server books))
chain-Guarded_example =
    chain-Guarded tokens provider (handle_get_wager_transaction alone) asked (server books) none

asked-shown :
    (get_transaction alone tokens none asked (server (with_outcome (codes "h")))).0
    ≡ success 200 (transaction (transaction_response (outcome (codes "h"))))
unfolding get_transaction chain authenticate authenticated parse_with_claims extract_bearer_token
    strip_prefix lookup_key find_key handle_get_wager_transaction on_pool observe nullable_string
    deref from_minor_units normalize_currency Wagertx.rehydrate str_eq find_transaction select_one
    scan_wager_tx nullable_time timestamptz transaction_row may_see identity_of transaction_response
asked-shown = refl

get_transaction-Owns_example :
    (identity : Identity) × IsAuthentic tokens asked key_set
      (get_transaction alone tokens none asked (server (with_outcome (codes "h")))).1.key_set
      identity
    × Owns identity (transaction_response (outcome (codes "h")))
get_transaction-Owns_example =
    get_transaction-Owns alone tokens asked (server (with_outcome (codes "h"))) none asked-shown

abbrev asked_by_id : Request
asked_by_id = record asked { path_provider_id = codes "pr"; path_external_id = codes "x" }

asked_by_id-shown :
    (get_transaction_by_external_id alone tokens none asked_by_id
      (server (with_outcome (codes "h")))).0
    ≡ success 200 (transaction (transaction_response (outcome (codes "h"))))
unfolding get_transaction_by_external_id chain authenticate authenticated parse_with_claims
    extract_bearer_token strip_prefix lookup_key find_key handle_get_by_provider_and_external_id
    on_pool observe nullable_string deref from_minor_units normalize_currency Wagertx.rehydrate
    str_eq find_by_provider_and_external_id select_one scan_wager_tx nullable_time timestamptz
    transaction_row may_ask identity_of transaction_response
asked_by_id-shown = refl

get_transaction_by_external_id-IsAsked_example :
    (identity : Identity) × IsAuthentic tokens asked_by_id key_set
      (get_transaction_by_external_id alone tokens none asked_by_id
        (server (with_outcome (codes "h")))).1.key_set
      identity
    × IsAsked asked_by_id identity (transaction_response (outcome (codes "h")))
get_transaction_by_external_id-IsAsked_example =
    get_transaction_by_external_id-IsAsked alone tokens asked_by_id
      (server (with_outcome (codes "h"))) none asked_by_id-shown

abbrev published_key : Jwk
published_key = record { kty = codes "RSA"; kid = codes "l"; n = codes "n"; e = codes "e" }

-- a call for a key that the provider has published since
abbrev key_call : KeyCall
key_call = record {
  read_at = pos 9_000_000_000;
  fetched = answered 200 (some (published_key ∷ []));
  during = λ k. k;
  refreshed_at = pos 9_000_000_001;
  after = λ k. k;
}

-- Trusted are the key of the first cache, and the one that the answer has.
abbrev Known : Bytes → PublicKey → Type 0
Known kid k = (kid ≡ codes "k") ⊎ (k ≡ record { modulus = 110; exponent = pos 101 })

published_key-IsTrustedJwk : IsTrustedJwk some Known published_key
unfolding jwk_to_rsa_public_key set_bytes wrap64
published_key-IsTrustedJwk key rsa good =
    let same : some (record { modulus = 110; exponent = pos 101 }) ≡ some key = good in
    inr (sym (ground (arith, same)))

same_answer :
    (jwks : List Jwk)
    → answered 200 (some (published_key ∷ [])) ≡ answered 200 (some jwks)
    → (published_key ∷ []) ≡ jwks
same_answer jwks same = cc

key_call-IsTrustedCall : IsTrustedCall some Known key_call
key_call-IsTrustedCall = record {
  published = λ jwks same.
      subst (All (IsTrustedJwk some Known)) (same_answer jwks same)
        (published_key-IsTrustedJwk, tt);
  during = λ ks t. t;
  after = λ ks t. t;
}

find_key-Sound_example : Sound some Known (codes "l") (find_key some key_call (codes "l") key_set)
find_key-Sound_example =
    find_key-Sound some Known key_call key_call-IsTrustedCall (codes "l") key_set (inl refl, tt)
