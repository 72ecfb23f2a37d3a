-- ===== src/Idp.antt =====
-- internal/infra/idp: who makes a request (middleware.go), and the keys of the identity provider, kept
-- in a cache (jwks.go). The messages of the errors are left out.
pub mod Trust
use wager_ledger.Base.{
  ℕ, ℤ, pos, ◌-ℤ◌, ltb_ℤ, wrap64, ◌+◌, ◌*◌, ◌==◌, Bool, true, false, ◌||◌, Bytes, codes, str_eq,
  is_empty, Option, none, some, List, [], ◌∷◌, if◌then◌else◌,
}
use wager_ledger.Wallet.{Time}
use wager_ledger.Usecase.Resume.{second}

pub record Identity : Type 0 where
  pub subject : Bytes
  pub client_id : Bytes
  pub roles : List Bytes

abbrev has : Bytes → List Bytes → Bool
has role [] = false
has role (r ∷ rs) = str_eq r role || has role rs

-- `HasRole`
abbrev pub has_role : Identity → Bytes → Bool
has_role identity role = has role identity.roles

-- `claims`, as far as they are used
pub record Claims : Type 0 where
  pub subject : Bytes
  pub authorized_party : Bytes
  pub realm_roles : List Bytes

unfoldable pub identity_of : Claims → Identity
identity_of c = record {
  subject = c.subject;
  client_id = c.authorized_party;
  roles = c.realm_roles;
}

-- what follows the prefix, or `none`
unfoldable pub strip_prefix : Bytes → Bytes → Option Bytes
strip_prefix [] s = some s
strip_prefix (c ∷ prefix) [] = none
strip_prefix (c ∷ prefix) (b ∷ s) =
    let rest = strip_prefix prefix s in if b == c then rest else none

abbrev unless_empty : Option Bytes → Option Bytes
unless_empty none = none
unless_empty (some token) = if is_empty token then none else some token

-- `extractBearerToken`, on the header Authorization; `none` for each of its errors
unfoldable pub extract_bearer_token : Bytes → Option Bytes
unfolding strip_prefix
extract_bearer_token header =
    if is_empty header then none else unless_empty (strip_prefix (codes "Bearer ") header)

-- `rsa.PublicKey`
pub record PublicKey : Type 0 where
  pub modulus : ℕ
  pub exponent : ℤ

-- `jwk`, without the algorithm, which is not used
pub record Jwk : Type 0 where
  pub kty : Bytes
  pub kid : Bytes
  pub n : Bytes
  pub e : Bytes

-- What an HTTP GET of the keys comes to: an error, or a status with the body as JSON, if it is.
pub data Fetched : Type 0 where
  unreachable : Fetched
  answered : ℕ → Option (List Jwk) → Fetched

-- `KeySet`; a map is a list in which the first entry of a key counts
pub record KeySet : Type 0 where
  pub keys : List (Bytes × PublicKey)
  pub last_refresh : Time

-- `big.Int.SetBytes`
unfoldable pub set_bytes : ℕ → Bytes → ℕ
set_bytes n [] = n
set_bytes n (b ∷ s) = set_bytes (n * 256 + b) s

unfoldable pub lookup_key : Bytes → List (Bytes × PublicKey) → Option PublicKey
lookup_key kid [] = none
lookup_key kid ((k, key) ∷ keys) =
    let rest = lookup_key kid keys in if str_eq k kid then some key else rest

-- nanoseconds
abbrev pub min_refresh_interval : ℕ
min_refresh_interval = 5 * second

-- What happens in a call of `Key` besides: the times that it reads, what the request of the keys comes to,
-- and what other calls make of the cache while it waits for them, and before it reads the cache again.
pub record KeyCall : Type 0 where
  pub read_at : Time
  pub fetched : Fetched
  pub during : KeySet → KeySet
  pub refreshed_at : Time
  pub after : KeySet → KeySet

abbrev pub replaced : Time → Option (List (Bytes × PublicKey)) → Option KeySet
replaced now none = none
replaced now (some keys) = some (record { keys = keys; last_refresh = now })

abbrev pub after_refresh : KeyCall → Bytes → KeySet → Option KeySet → Option PublicKey × KeySet
after_refresh c kid ks none = (none, c.during ks)
after_refresh c kid ks (some fresh) = (lookup_key kid (c.after fresh).keys, c.after fresh)

-- The parameter is base64.RawURLEncoding, `none` for an error.
module _ (decode_base64 : Bytes → Option Bytes) where
  -- `int(e.Int64())` keeps the lowest 64 bits of a number out of range.
  abbrev public_key : Option Bytes → Option Bytes → Option PublicKey
  public_key (some n) (some e) =
      some (record { modulus = set_bytes 0 n; exponent = wrap64 (pos (set_bytes 0 e)) })
  public_key _ _ = none

  -- `jwkToRSAPublicKey`
  unfoldable pub jwk_to_rsa_public_key : Jwk → Option PublicKey
  unfolding set_bytes
  jwk_to_rsa_public_key k = public_key (decode_base64 k.n) (decode_base64 k.e)

  -- The loop of `refresh`, from the last key on: of two keys with one id the later one counts.
  unfoldable pub collect_keys :
      List Jwk → List (Bytes × PublicKey) → Option (List (Bytes × PublicKey))
  unfolding jwk_to_rsa_public_key
  collect_keys [] keys = some keys
  collect_keys (k ∷ ks) keys =
      if str_eq k.kty (codes "RSA")
      then elim (jwk_to_rsa_public_key k) [
        | none ↦ none
        | some key ↦ collect_keys ks ((k.kid, key) ∷ keys)
      ]
      else collect_keys ks keys

  -- `refresh`: the new keys, or `none` for an error, which leaves the old ones
  unfoldable pub refresh : Fetched → Time → Option KeySet
  unfolding collect_keys
  refresh unreachable now = none
  refresh (answered status none) now = none
  refresh (answered status (some jwks)) now =
      if status == 200 then replaced now (collect_keys jwks []) else none

  abbrev pub or_refresh : Option PublicKey → KeyCall → Bytes → KeySet → Option PublicKey × KeySet
  or_refresh (some key) c kid ks = (some key, ks)
  or_refresh none c kid ks =
      if ltb_ℤ (c.read_at -ℤ ks.last_refresh) (pos min_refresh_interval)
      then (none, ks)
      else after_refresh c kid ks (refresh c.fetched c.refreshed_at)

  -- `Key`: the key, or `none` for an error, and the cache. The lock is held while the cache is read and
  -- while it is written, and by nobody in between.
  unfoldable pub find_key : KeyCall → Bytes → KeySet → Option PublicKey × KeySet
  unfolding lookup_key refresh
  find_key c kid ks = or_refresh (lookup_key kid ks.keys) c kid ks
