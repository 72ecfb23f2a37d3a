-- ===== src/Http/Guarded.antt =====
-- What the middleware of internal/infra/idp/middleware.go has established when a handler runs.
use wager_ledger.Base.{
  ℕ, true, Bytes, codes, Option, none, some, [], ◌∷◌, is_empty, ◌≡◌, ◌⊎◌, refl, ap, subst, arith,
  Bool-cases, inl, inr,
}
use wager_ledger.Idp.{
  Identity, has_role, Claims, identity_of, extract_bearer_token, PublicKey, KeySet,
}
use wager_ledger.Idp.Trust.{IsHeld, find_key-IsHeld}
use wager_ledger.Http.{
  Request, Response, problem, Server, Handler, Tokens, claims_by, key_for, parse_with_claims,
  authenticated, pass_on, authenticate, require_role, chain,
}

-- The request carries a token that names a key by its id, and this key, which stands in the cache of keys
-- before the call or after it, verifies the token with the claims of the identity.
pub record IsAuthentic (tokens : Tokens) (r : Request) (ks ks' : KeySet) (identity : Identity)
    : Type 0 where
  pub token : Bytes
  pub carried : extract_bearer_token r.authorization ≡ some token
  pub kid : Bytes
  pub named : tokens.key_id token ≡ some kid
  pub key : PublicKey
  pub held : IsHeld kid key ks ⊎ IsHeld kid key ks'
  pub claims : Claims
  pub signed : tokens.verified key token ≡ some claims
  pub same : identity ≡ identity_of claims

module _ (tokens : Tokens) (r : Request) where
  claims_by-signed :
      (o : Option PublicKey) (token : Bytes) {c : Claims}
      → claims_by tokens o token ≡ some c
      → (key : PublicKey) × (o ≡ some key) × (tokens.verified key token ≡ some c)
  claims_by-signed none token h = cc
  claims_by-signed (some key) token h = (key, refl, h)

  key_for-IsHeld :
      (o : Option Bytes) (ks : KeySet) {key : PublicKey}
      → (key_for tokens o ks).0 ≡ some key
      → (kid : Bytes) × (o ≡ some kid)
        × (IsHeld kid key ks ⊎ IsHeld kid key (key_for tokens o ks).1)
  key_for-IsHeld none ks h = cc
  key_for-IsHeld (some kid) ks {key} h = elim (Bool-cases (is_empty kid)) [
    | inl e ↦ let no : none ≡ some key = rw e at h in cc
    | inr e ↦
        rw e (kid, refl, find_key-IsHeld tokens.decode_base64 (tokens.call ks) kid ks (rw e at h))
  ]

  -- what the claims of a parsed token rest on
  abbrev Rests : Option Bytes → Claims → KeySet → KeySet → Type 0
  Rests o c ks ks' =
      (token : Bytes) × (o ≡ some token)
      × ((kid : Bytes) × (tokens.key_id token ≡ some kid)
          × ((key : PublicKey) × (tokens.verified key token ≡ some c)
              × (IsHeld kid key ks ⊎ IsHeld kid key ks')))

  parsed-Rests :
      (o : Option Bytes) (ks : KeySet) {c : Claims}
      → (parse_with_claims tokens o ks).0 ≡ some c
      → Rests o c ks (parse_with_claims tokens o ks).1
  unfolding parse_with_claims
  parsed-Rests none ks h = cc
  parsed-Rests (some token) ks h =
      let (key, found, signed) =
        claims_by-signed (key_for tokens (tokens.key_id token) ks).0 token h in
      let (kid, named, held) = key_for-IsHeld (tokens.key_id token) ks found in
      (token, refl, (kid, named, (key, signed, held)))

  identified :
      (o : Option Claims) {identity : Identity}
      → (elim o [ none ↦ none | some c ↦ some (identity_of c) ]) ≡ some identity
      → (c : Claims) × (o ≡ some c) × (identity ≡ identity_of c)
  identified none h = cc
  identified (some c) h = (c, refl, ground (arith, h))

  pub authenticated-IsAuthentic :
      (ks : KeySet) {identity : Identity}
      → (authenticated tokens r ks).0 ≡ some identity
      → IsAuthentic tokens r ks (authenticated tokens r ks).1 identity
  unfolding authenticated
  authenticated-IsAuthentic ks h =
      let (c, found, same) = identified _ h in
      let (token, carried, (kid, named, (key, signed, held))) =
        parsed-Rests (extract_bearer_token r.authorization) ks found in
      record {
        token = token;
        carried = carried;
        kid = kid;
        named = named;
        key = key;
        held = held;
        claims = c;
        signed = signed;
        same = same;
      }

  -- the same, by the pair that `authenticated` returns
  pub pair-IsAuthentic :
      (s : Server) (identity : Identity) (ks : KeySet)
      → authenticated tokens r s.key_set ≡ (some identity, ks)
      → IsAuthentic tokens r s.key_set ks identity
  pair-IsAuthentic s identity ks e =
      subst (λ k. IsAuthentic tokens r s.key_set k identity) (ap (λ x. x.1) e)
        (authenticated-IsAuthentic s.key_set (ap (λ x. x.0) e))

-- What a guarded route does with a request: it refuses it and leaves the tables alone, or it lets the handler run
-- for an identity with the role, which a token of the request proves.
pub data Guarded (tokens : Tokens) (role : Bytes) (h : Handler) (r : Request) (s : Server)
    (x : Response × Server) : Type 0 where
  refused :
      (status : ℕ) (code : Bytes)
      → x.0 ≡ problem status code
      → x.1.world ≡ s.world
      → Guarded tokens role h r s x
  let_through :
      (identity : Identity) (ks : KeySet)
      → IsAuthentic tokens r s.key_set ks identity
      → has_role identity role ≡ true
      → x ≡ h (some identity) r (record s { key_set = ks })
      → Guarded tokens role h r s x

module _ (tokens : Tokens) (role : Bytes) (h : Handler) (r : Request) (s : Server) where
  required-Guarded :
      (identity : Identity) (ks : KeySet)
      → IsAuthentic tokens r s.key_set ks identity
      → Guarded tokens role h r s
          (require_role role h (some identity) r (record s { key_set = ks }))
  unfolding require_role
  required-Guarded identity ks authentic = elim (Bool-cases (has_role identity role)) [
    | inl e ↦ rw e (let_through identity ks authentic e refl)
    | inr e ↦ rw e (refused 403 (codes "Forbidden") refl refl)
  ]

  passed-Guarded :
      (x : Option Identity × KeySet)
      → authenticated tokens r s.key_set ≡ x
      → Guarded tokens role h r s (pass_on tokens (require_role role h) x r s)
  passed-Guarded (none, ks) e = refused 401 (codes "Unauthorized") refl refl
  passed-Guarded (some identity, ks) e =
      required-Guarded identity ks (pair-IsAuthentic tokens r s identity ks e)

  -- A route behind `Authenticate` and `RequireRole` refuses a request and leaves the tables as they are,
  -- or lets its handler run for an identity that has the role and that a token of the request proves, by the key
  -- in the cache of keys that the token names, whoever the context says makes the request.
  pub chain-Guarded :
      (context : Option Identity)
      → Guarded tokens role h r s
          (chain h (authenticate tokens ∷ require_role role ∷ []) context r s)
  unfolding chain authenticate
  chain-Guarded context = passed-Guarded (authenticated tokens r s.key_set) refl
