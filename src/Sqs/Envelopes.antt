-- ===== src/Sqs/Envelopes.antt =====
-- What `decodeEnvelope` lets through (internal/infra/sqs/consumer.go).
use wager_ledger.Base.{
  IsInt64, false, Bytes, Option, none, some, ◌≡◌, refl, arith, is_empty, Option-cases, inl, inr,
}
use wager_ledger.Errors.{Result, ok, err}
use wager_ledger.Money.{Money}
use wager_ledger.Money.Json.{money_of-IsInt64}
use wager_ledger.Usecase.Monad.{Env}
use wager_ledger.Sqs.{
  Envelope, Decoded, refused, invalid_json, decoded, decode_envelope, effective_id, money_of,
  check_envelope, input_of,
}

-- What a decoded envelope is: its amount was read, and it has an id.
pub record Envelops (d : Decoded) (e : Envelope) : Type 0 where
  pub reads : (amount : Money) × (money_of e.money_json ≡ ok amount) × (d.input ≡ input_of e amount)
  pub id : d.message_id ≡ e.message_id
  pub has_id : is_empty d.message_id ≡ false

check_envelope-Envelops :
    (env : Env) (unmarshal : Bytes → Option Envelope) (body : Bytes) (e : Envelope)
    (r : Result Money) {d : Decoded}
    → money_of e.money_json ≡ r
    → check_envelope env unmarshal body e r ≡ decoded d
    → Envelops d e
unfolding check_envelope
check_envelope-Envelops env unmarshal body e (err x) m h = cc
check_envelope-Envelops env unmarshal body e (ok amount) m h = record {
  reads = (amount, m, ground arith);
  id = ground arith;
  has_id = ground arith;
}

pub decoded-Envelops :
    (env : Env) (unmarshal : Bytes → Option Envelope) (body : Option Bytes) {d : Decoded}
    → decode_envelope env unmarshal body ≡ decoded d
    → (e : Envelope) × Envelops d e
unfolding decode_envelope
decoded-Envelops env unmarshal none {d} h = cc
decoded-Envelops env unmarshal (some body) {d} h = elim (Option-cases (unmarshal body)) [
  | inl e ↦ let no : refused invalid_json ≡ decoded d = rw (decode_envelope, e) at h in cc
  | inr (x, e) ↦
      (x, check_envelope-Envelops env unmarshal body x _ refl (rw (decode_envelope, e) at h))
]

pub decoded-IsInt64 :
    {d : Decoded} {e : Envelope} → Envelops d e → IsInt64 d.input.amount.minor_units
unfolding input_of
decoded-IsInt64 {e = e} v =
    let (amount, read, same) = v.reads in rw same (money_of-IsInt64 e.money_json read)

-- An envelope without an id is refused, so that the id that SQS gives is never used.
pub effective_id-own :
    (id : Bytes) (sqs_id : Option Bytes) → is_empty id ≡ false → effective_id id sqs_id ≡ id
unfolding effective_id
effective_id-own id none h = refl
effective_id-own id (some sqs_id) h = rw h refl
