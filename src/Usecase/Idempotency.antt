-- ===== src/Usecase/Idempotency.antt =====
-- internal/application/usecase/idempotency.go: the hash of a request's payload.
pub mod Distinct
use wager_ledger.Base.{Bytes, codes, ◌++◌, ◌∷◌, []}
use wager_ledger.Usecase.Monad.{Env}

pub record CanonicalWagerFields : Type 0 where
  pub provider_id : Bytes
  pub external_transaction_id : Bytes
  pub player_id : Bytes
  pub wallet_id : Bytes
  pub round_id : Bytes
  pub game_id : Bytes
  pub kind : Bytes
  pub money_amount : Bytes
  pub money_currency : Bytes
  pub reference_external_transaction_id : Bytes

module _ (env : Env) where
  -- `"name":value` and what follows it
  member : Bytes → Bytes → Bytes → Bytes
  member name value rest = env.json_string name ++ (b':' ∷ (value ++ rest))

  -- json.Marshal writes the keys of a map in sorted order.
  unfoldable pub canonical_json : CanonicalWagerFields → Bytes
  unfolding member
  canonical_json f =
      b'{'
      ∷ member (codes "externalTransactionId") (env.json_string f.external_transaction_id) (
          b','
          ∷ member (codes "gameId") (env.json_string f.game_id) (
              b','
              ∷ member (codes "kind") (env.json_string f.kind) (
                  b','
                  ∷ member (codes "money")
                      (b'{'
                        ∷ member (codes "amount") (env.json_string f.money_amount) (
                            b','
                            ∷ member (codes "currency") (env.json_string f.money_currency)
                                (b'}' ∷ [])))
                      (b','
                        ∷ member (codes "playerId") (env.json_string f.player_id) (
                            b','
                            ∷ member (codes "providerId") (env.json_string f.provider_id) (
                                b','
                                ∷ member (codes "referenceExternalTransactionId")
                                    (env.json_string f.reference_external_transaction_id)
                                    (b','
                                      ∷ member (codes "roundId") (env.json_string f.round_id) (
                                          b','
                                          ∷ member (codes "walletId") (env.json_string f.wallet_id)
                                              (b'}' ∷ [])))))))))

  -- Marshalling strings does not fail.
  unfoldable pub compute_payload_hash : CanonicalWagerFields → Bytes
  compute_payload_hash f = env.sha256_hex (canonical_json f)
