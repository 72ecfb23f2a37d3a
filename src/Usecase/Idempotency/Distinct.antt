-- ===== src/Usecase/Idempotency/Distinct.antt =====
-- Different payloads have different canonical texts (idempotency.go, `computePayloadHash`).
use wager_ledger.Base.{ℕ, Bytes, codes, ◌++◌, append_assoc, ◌∷◌, [], ◌≡◌, ap, sym, ◌∙◌}
use wager_ledger.Usecase.Monad.{Env}
use wager_ledger.Usecase.Idempotency.{CanonicalWagerFields, member, canonical_json}

cons-tail : {b c : ℕ} {s t : Bytes} → (b ∷ s) ≡ (c ∷ t) → s ≡ t
cons-tail h = cc

append_cancel : (s : Bytes) {t u : Bytes} → s ++ t ≡ s ++ u → t ≡ u
append_cancel [] h = h
append_cancel (b ∷ s) h = append_cancel s (cons-tail h)

-- What encoding/json documents of a string that is valid UTF-8 (`IsText`): its JSON shows where it ends, and
-- which string it was.
pub record IsDelimited (env : Env) (IsText : Bytes → Type 0) : Type 0 where
  pub split :
      (s t x y : Bytes)
      → IsText s
      → IsText t
      → env.json_string s ++ x ≡ env.json_string t ++ y
      → (s ≡ t) × (x ≡ y)

pub record IsTexts (IsText : Bytes → Type 0) (f : CanonicalWagerFields) : Type 0 where
  pub provider_id : IsText f.provider_id
  pub external_transaction_id : IsText f.external_transaction_id
  pub player_id : IsText f.player_id
  pub wallet_id : IsText f.wallet_id
  pub round_id : IsText f.round_id
  pub game_id : IsText f.game_id
  pub kind : IsText f.kind
  pub money_amount : IsText f.money_amount
  pub money_currency : IsText f.money_currency
  pub reference_external_transaction_id : IsText f.reference_external_transaction_id

module _ (env : Env) where
  member-value :
      (name v v' x y : Bytes) → member env name v x ≡ member env name v' y → v ++ x ≡ v' ++ y
  unfolding member
  member-value name v v' x y h = cons-tail (append_cancel (env.json_string name) h)

  member-append : (name v x y : Bytes) → member env name v x ++ y ≡ member env name v (x ++ y)
  unfolding member
  member-append name v x y =
      append_assoc (env.json_string name) _ y
      ∙ ap (λ r. env.json_string name ++ (b':' ∷ r)) (append_assoc v x y)

  -- the JSON of the money
  abbrev money_text : Bytes → Bytes → Bytes
  money_text amount currency =
      b'{'
      ∷ member env (codes "amount") (env.json_string amount)
          (b',' ∷ member env (codes "currency") (env.json_string currency) (b'}' ∷ []))

module _ (env : Env) (IsText : Bytes → Type 0) (delimited : IsDelimited env IsText) where
  -- a field of an object, behind the brace or comma `b`
  peel :
      (b : ℕ) (name : Bytes) {s t : Bytes} (x y : Bytes)
      → IsText s
      → IsText t
      → (b ∷ member env name (env.json_string s) x) ≡ (b ∷ member env name (env.json_string t) y)
      → (s ≡ t) × (x ≡ y)
  peel b name x y s t h = delimited.split _ _ x y s t (member-value env name _ _ x y (cons-tail h))

  -- the same, where `z` follows the object
  peel_inner :
      (b : ℕ) (name : Bytes) {s t : Bytes} (x y z z' : Bytes)
      → IsText s
      → IsText t
      → (b ∷ member env name (env.json_string s) x ++ z)
        ≡ (b ∷ member env name (env.json_string t) y ++ z')
      → (s ≡ t) × (x ++ z ≡ y ++ z')
  peel_inner b name {s} {t} x y z z' p q h = peel b name (x ++ z) (y ++ z') p q (
      ap (λ r. b ∷ r) (sym (member-append env name (env.json_string s) x z))
      ∙ h
      ∙ ap (λ r. b ∷ r) (member-append env name (env.json_string t) y z'))

  peel_money :
      (b : ℕ) {amount amount' currency currency' : Bytes} (z z' : Bytes)
      → IsText amount
      → IsText amount'
      → IsText currency
      → IsText currency'
      → (b ∷ member env (codes "money") (money_text env amount currency) z)
        ≡ (b ∷ member env (codes "money") (money_text env amount' currency') z')
      → (amount ≡ amount') × (currency ≡ currency') × (z ≡ z')
  peel_money b z z' p p' q q' h =
      let whole = member-value env (codes "money") _ _ z z' (cons-tail h) in
      let (amount, rest) = peel_inner b'{' (codes "amount") _ _ z z' p p' whole in
      let (currency, last) =
        peel_inner b',' (codes "currency") (b'}' ∷ []) (b'}' ∷ []) z z' q q' rest in
      (amount, currency, cons-tail last)

  -- Two payloads with one canonical text are the same payload, so that the hashes of two others agree only
  -- where SHA-256 has a collision: provided that their fields are texts that encoding/json writes without loss.
  pub canonical_json-injective :
      (f g : CanonicalWagerFields)
      → IsTexts IsText f
      → IsTexts IsText g
      → canonical_json env f ≡ canonical_json env g
      → f ≡ g
  unfolding canonical_json
  canonical_json-injective f g p q h =
      let (external, h1) =
        peel b'{' (codes "externalTransactionId") _ _ p.external_transaction_id
          q.external_transaction_id h in
      let (game, h2) = peel b',' (codes "gameId") _ _ p.game_id q.game_id h1 in
      let (kind, h3) = peel b',' (codes "kind") _ _ p.kind q.kind h2 in
      let (amount, currency, h4) =
        peel_money b',' _ _ p.money_amount q.money_amount p.money_currency q.money_currency h3 in
      let (player, h5) = peel b',' (codes "playerId") _ _ p.player_id q.player_id h4 in
      let (provider, h6) = peel b',' (codes "providerId") _ _ p.provider_id q.provider_id h5 in
      let (reference, h7) =
        peel b',' (codes "referenceExternalTransactionId") _ _ p.reference_external_transaction_id
          q.reference_external_transaction_id h6 in
      let (round, h8) = peel b',' (codes "roundId") _ _ p.round_id q.round_id h7 in
      let (wallet, h9) =
        peel b',' (codes "walletId") (b'}' ∷ []) (b'}' ∷ []) p.wallet_id q.wallet_id h8 in
      λ i. record {
        provider_id = provider i;
        external_transaction_id = external i;
        player_id = player i;
        wallet_id = wallet i;
        round_id = round i;
        game_id = game i;
        kind = kind i;
        money_amount = amount i;
        money_currency = currency i;
        reference_external_transaction_id = reference i;
      }
