-- ===== src/Idp/Trust.antt =====
-- Which keys the cache of keys gives out (jwks.go, `Key` and `refresh`).
use wager_ledger.Base.{
  pos, ◌-ℤ◌, ltb_ℤ, ◌==◌, true, Bytes, codes, str_eq, str_eq_sound, Option, none, some, List, [],
  ◌∷◌, All, ◌≡◌, ◌⊎◌, refl, ◌∙◌, subst, arith, Bool-cases, Option-cases, inl, inr,
}
use wager_ledger.Idp.{
  Jwk, Fetched, unreachable, answered, PublicKey, KeySet, KeyCall, min_refresh_interval, lookup_key,
  jwk_to_rsa_public_key, collect_keys, replaced, refresh, after_refresh, or_refresh, find_key,
}

-- a key with the id stands in the cache
abbrev pub IsHeld : Bytes → PublicKey → KeySet → Type 0
IsHeld kid key ks = lookup_key kid ks.keys ≡ some key

module _ (decode_base64 : Bytes → Option Bytes) (Trusted : Bytes → PublicKey → Type 0) where
  -- every entry of the cache is trusted
  abbrev pub AllTrusted : List (Bytes × PublicKey) → Type 0
  AllTrusted = All (λ (e : Bytes × PublicKey). Trusted e.0 e.1)

  -- The RSA keys of an answer are trusted under their ids.
  abbrev pub IsTrustedJwk : Jwk → Type 0
  IsTrustedJwk k =
      (key : PublicKey)
      → str_eq k.kty (codes "RSA") ≡ true
      → jwk_to_rsa_public_key decode_base64 k ≡ some key
      → Trusted k.kid key

  -- What an answer with status 200 publishes is trusted, and other calls keep the cache trusted.
  pub record IsTrustedCall (c : KeyCall) : Type 0 where
    pub published : (jwks : List Jwk) → c.fetched ≡ answered 200 (some jwks) → All IsTrustedJwk jwks
    pub during : (ks : KeySet) → AllTrusted ks.keys → AllTrusted (c.during ks).keys
    pub after : (ks : KeySet) → AllTrusted ks.keys → AllTrusted (c.after ks).keys

  lookup_key-Trusted :
      (kid : Bytes) (keys : List (Bytes × PublicKey)) {key : PublicKey}
      → AllTrusted keys
      → lookup_key kid keys ≡ some key
      → Trusted kid key
  unfolding lookup_key
  lookup_key-Trusted kid [] h e = cc
  lookup_key-Trusted kid ((k, v) ∷ keys) {key} (t, h) e = elim (Bool-cases (str_eq k kid)) [
    | inl s ↦
        let found : some v ≡ some key = rw s at e in
        let same : v ≡ key = ground (arith, found) in
        subst (λ x. Trusted kid x) same (subst (λ x. Trusted x v) (str_eq_sound k kid s) t)
    | inr s ↦ lookup_key-Trusted kid keys h (rw s at e)
  ]

  collect_keys-AllTrusted :
      (jwks : List Jwk) (keys : List (Bytes × PublicKey)) {found : List (Bytes × PublicKey)}
      → All IsTrustedJwk jwks
      → AllTrusted keys
      → collect_keys decode_base64 jwks keys ≡ some found
      → AllTrusted found
  unfolding collect_keys
  collect_keys-AllTrusted [] keys {found} h t e =
      let same : keys ≡ found = ground (arith, e) in subst AllTrusted same t
  collect_keys-AllTrusted (k ∷ ks) keys {found} (p, h) t e =
      elim (Bool-cases (str_eq k.kty (codes "RSA"))) [
        | inl rsa ↦ elim (Option-cases (jwk_to_rsa_public_key decode_base64 k)) [
          | inl bad ↦ let no : none ≡ some found = rw (rsa, bad) at e in cc
          | inr (key, good) ↦
              collect_keys-AllTrusted ks ((k.kid, key) ∷ keys) h (p key rsa good, t)
                (rw (rsa, good) at e)
        ]
        | inr other ↦ collect_keys-AllTrusted ks keys h t (rw other at e)
      ]

  -- what a call of `Key` gives out, if anything
  abbrev pub GivesTrusted : Bytes → Option PublicKey → Type 0
  GivesTrusted kid none = Unit
  GivesTrusted kid (some key) = Trusted kid key

  looked_up-GivesTrusted :
      (kid : Bytes) (keys : List (Bytes × PublicKey)) (o : Option PublicKey)
      → AllTrusted keys
      → lookup_key kid keys ≡ o
      → GivesTrusted kid o
  looked_up-GivesTrusted kid keys none t e = tt
  looked_up-GivesTrusted kid keys (some key) t e = lookup_key-Trusted kid keys t e

  -- the result of a call, and the cache after it
  abbrev pub Sound : Bytes → Option PublicKey × KeySet → Type 0
  Sound kid x = GivesTrusted kid x.0 × AllTrusted x.1.keys

  module _ (c : KeyCall) (trusted : IsTrustedCall c) (kid : Bytes) (ks : KeySet)
      (held : AllTrusted ks.keys) where
    replaced-AllTrusted :
        (o : Option (List (Bytes × PublicKey))) {fresh : KeySet}
        → ((keys : List (Bytes × PublicKey)) → o ≡ some keys → AllTrusted keys)
        → replaced c.refreshed_at o ≡ some fresh
        → AllTrusted fresh.keys
    replaced-AllTrusted none h e = cc
    replaced-AllTrusted (some keys) {fresh} h e =
        let same : keys ≡ fresh.keys = ground (arith, e) in subst AllTrusted same (h keys refl)

    refreshed-AllTrusted :
        (f : Fetched) {fresh : KeySet}
        → c.fetched ≡ f
        → refresh decode_base64 f c.refreshed_at ≡ some fresh
        → AllTrusted fresh.keys
    unfolding refresh
    refreshed-AllTrusted unreachable e h = cc
    refreshed-AllTrusted (answered status none) e h = cc
    refreshed-AllTrusted (answered status (some jwks)) {fresh} e h =
        elim (Bool-cases (status == 200)) [
          | inl good ↦
              let is_200 : status ≡ 200 = ground (arith, good) in
              replaced-AllTrusted (collect_keys decode_base64 jwks []) {fresh = fresh}
                (λ keys.
                  collect_keys-AllTrusted jwks [] (trusted.published jwks (rw is_200 at e)) tt)
                (rw good at h)
          | inr bad ↦ let no : none ≡ some fresh = rw bad at h in cc
        ]

    after_refresh-Sound :
        (o : Option KeySet)
        → refresh decode_base64 c.fetched c.refreshed_at ≡ o
        → Sound kid (after_refresh c kid ks o)
    after_refresh-Sound none e = (tt, trusted.during ks held)
    after_refresh-Sound (some fresh) e =
        let t = trusted.after fresh (refreshed-AllTrusted c.fetched refl e) in
        (looked_up-GivesTrusted kid (c.after fresh).keys _ t refl, t)

    or_refresh-Sound :
        (o : Option PublicKey)
        → lookup_key kid ks.keys ≡ o
        → Sound kid (or_refresh decode_base64 o c kid ks)
    or_refresh-Sound (some key) e = (lookup_key-Trusted kid ks.keys held e, held)
    or_refresh-Sound none e =
        elim (Bool-cases (ltb_ℤ (c.read_at -ℤ ks.last_refresh) (pos min_refresh_interval))) [
          | inl early ↦ rw early (tt, held)
          | inr late ↦ rw late (after_refresh-Sound _ refl)
        ]

    -- `Key` gives out trusted keys alone, under the id asked for, and leaves none but trusted keys in the
    -- cache, whichever keys are trusted: provided that those in the cache are, and the RSA keys of an answer
    -- with status 200 under their ids, and that other calls, at any time between the locks, keep it so.
    pub find_key-Sound : Sound kid (find_key decode_base64 c kid ks)
    unfolding find_key
    find_key-Sound = or_refresh-Sound _ refl

-- The key that `Key` gives out stands in the cache, before the call or after it, under the id asked for.
module _ (decode_base64 : Bytes → Option Bytes) (c : KeyCall) (kid : Bytes) (ks : KeySet) where
  after_refresh-IsHeld :
      (o : Option KeySet) {key : PublicKey}
      → (after_refresh c kid ks o).0 ≡ some key
      → IsHeld kid key (after_refresh c kid ks o).1
  after_refresh-IsHeld none h = cc
  after_refresh-IsHeld (some fresh) h = h

  or_refresh-IsHeld :
      (o : Option PublicKey) {key : PublicKey}
      → lookup_key kid ks.keys ≡ o
      → (or_refresh decode_base64 o c kid ks).0 ≡ some key
      → IsHeld kid key ks ⊎ IsHeld kid key (or_refresh decode_base64 o c kid ks).1
  or_refresh-IsHeld (some k) e h = inl (e ∙ h)
  or_refresh-IsHeld none {key} e h =
      elim (Bool-cases (ltb_ℤ (c.read_at -ℤ ks.last_refresh) (pos min_refresh_interval))) [
        | inl early ↦ let no : none ≡ some key = rw early at h in cc
        | inr late ↦ rw late (inr (after_refresh-IsHeld _ (rw late at h)))
      ]

  pub find_key-IsHeld :
      {key : PublicKey}
      → (find_key decode_base64 c kid ks).0 ≡ some key
      → IsHeld kid key ks ⊎ IsHeld kid key (find_key decode_base64 c kid ks).1
  unfolding find_key
  find_key-IsHeld h = or_refresh-IsHeld (lookup_key kid ks.keys) refl h
