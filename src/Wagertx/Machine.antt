-- ===== src/Wagertx/Machine.antt =====
-- The state machine of a wager transaction: which transitions its methods make, that the terminal
-- states are final, and what holds of a transaction in each state.
use wager_ledger.Base.{
  Bool, true, false, not, Bytes, is_empty, Option, none, some, List, [], ◌∷◌, ◌≡◌, ◌⊎◌, refl, arith,
}
use wager_ledger.Errors.{Error, Result, err}
use wager_ledger.Money.{Money}
use wager_ledger.Wallet.{Time}
use wager_ledger.Wagertx.{
  WagerTransaction, Status, pending, pending_reference, processed, rejected, failed, is_terminal,
  is_opening, is_processed, mark_pending_reference, mark_processed, mark_rejected, mark_failed,
  resolve_reference, record_reference_retry_attempt,
}

-- A call of a method that changes the transaction.
pub data Call : Type 0 where
  park : Call
  process : Money → Call
  reject : Bytes → Option Money → Call
  fail : Bytes → Call
  resolve : Bytes → Call
  retry : Time → Call

unfoldable pub call : Call → Time → WagerTransaction → WagerTransaction × Result (Unit {0})
call park now t = mark_pending_reference now t
call (process m) now t = mark_processed m now t
call (reject code m) now t = mark_rejected code m now t
call (fail code) now t = mark_failed code now t
call (resolve id) now t = resolve_reference id now t
call (retry next) now t = record_reference_retry_attempt next now t

-- The diagram of the statuses.
infix 40 ◌⟶◌
pub data ◌⟶◌ : Status → Status → Type 0 where
  wait : pending ⟶ pending_reference
  settle : pending ⟶ processed
  settle_late : pending_reference ⟶ processed
  refuse : pending ⟶ rejected
  refuse_late : pending_reference ⟶ rejected
  expire : pending ⟶ failed
  expire_late : pending_reference ⟶ failed

ruleset edges = (wait, settle, settle_late, refuse, refuse_late, expire, expire_late)

-- Every call leaves the status alone or follows an edge of the diagram.
pub call-⟶ :
    (c : Call) (now : Time) (t : WagerTransaction)
    → ((call c now t).0.status ≡ t.status) ⊎ (t.status ⟶ (call c now t).0.status)
unfolding call mark_pending_reference mark_processed mark_rejected mark_failed resolve_reference
    record_reference_retry_attempt
call-⟶ park now t = grind (arith, edges)
call-⟶ _ now t = grind (arith, edges)

-- A call that returns an error leaves the transaction as it was.
pub call_error_unchanged :
    (c : Call) (now : Time) (t : WagerTransaction) (e : Error)
    → (call c now t).1 ≡ err e
    → (call c now t).0 ≡ t
unfolding call mark_pending_reference mark_processed mark_rejected mark_failed resolve_reference
    record_reference_retry_attempt
call_error_unchanged park now t e h = ground arith
call_error_unchanged _ now t e h = ground arith

call_terminal :
    (c : Call) (now : Time) (t : WagerTransaction)
    → is_terminal t.status ≡ true
    → (call c now t).0 ≡ t
unfolding call mark_pending_reference mark_processed mark_rejected mark_failed resolve_reference
    record_reference_retry_attempt
call_terminal park now t h = ground arith
call_terminal _ now t h = ground arith

pub run : List (Call × Time) → WagerTransaction → WagerTransaction
run [] t = t
run ((c, now) ∷ cs) t = run cs (call c now t).0

-- A processed, rejected or failed transaction stays as it is under any sequence of calls.
pub run_terminal :
    (cs : List (Call × Time)) (t : WagerTransaction) → is_terminal t.status ≡ true → run cs t ≡ t
unfolding run
run_terminal [] t h = refl
run_terminal ((c, now) ∷ cs) t h = rw (call_terminal c now t h) (run_terminal cs t h)

-- What identifies the operation and what it is worth.
pub record SameOperation (t u : WagerTransaction) : Type 0 where
  pub id : u.id ≡ t.id
  pub kind : u.kind ≡ t.kind
  pub wallet_id : u.wallet_id ≡ t.wallet_id
  pub player_id : u.player_id ≡ t.player_id
  pub amount : u.amount ≡ t.amount
  pub provider_id : u.provider_id ≡ t.provider_id
  pub external_id : u.external_id ≡ t.external_id
  pub idempotency_key : u.idempotency_key ≡ t.idempotency_key
  pub payload_hash : u.payload_hash ≡ t.payload_hash
  pub reference_external_id : u.reference_external_id ≡ t.reference_external_id

abbrev pub is_some {ℓ} : {A : Type ℓ} → Option A → Bool
is_some none = false
is_some (some a) = true

abbrev pub unsuccessful : Status → Bool
unsuccessful rejected = true
unsuccessful failed = true
unsuccessful _ = false

-- A failure code is there exactly in REJECTED and FAILED; a processed external operation has its
-- financial result; a transaction that is still open has none.
pub record IsConsistent (t : WagerTransaction) : Type 0 where
  pub code : not (is_empty t.failure_code) ≡ unsuccessful t.status
  pub result :
      is_processed t.status ≡ true → is_opening t.kind ≡ false → is_some t.financial_result ≡ true
  pub no_result : is_terminal t.status ≡ false → is_some t.financial_result ≡ false

call-IsConsistent :
    (c : Call) (now : Time) (t : WagerTransaction) → IsConsistent t → IsConsistent (call c now t).0
unfolding call mark_pending_reference mark_processed mark_rejected mark_failed resolve_reference
    record_reference_retry_attempt
call-IsConsistent park now t h = ground arith
call-IsConsistent _ now t h = ground arith

call-SameOperation :
    (c : Call) (now : Time) (t : WagerTransaction) → SameOperation t (call c now t).0
unfolding call mark_pending_reference mark_processed mark_rejected mark_failed resolve_reference
    record_reference_retry_attempt
call-SameOperation park now t = ground arith
call-SameOperation _ now t = ground arith

SameOperation-trans :
    (t u v : WagerTransaction) → SameOperation t u → SameOperation u v → SameOperation t v
SameOperation-trans t u v h k = ground arith

-- Under any sequence of calls a transaction stays the same operation, and what its state promises
-- holds: a failure code exactly in REJECTED and FAILED, a financial result in every processed
-- external operation and in no open one.
pub run_keeps :
    (cs : List (Call × Time)) (t : WagerTransaction)
    → IsConsistent t
    → SameOperation t (run cs t) × IsConsistent (run cs t)
unfolding run
run_keeps [] t h = (ground arith, h)
run_keeps ((c, now) ∷ cs) t h =
    let u = (call c now t).0 in
    let k = run_keeps cs u (call-IsConsistent c now t h) in
    (SameOperation-trans t u (run cs u) (call-SameOperation c now t) k.0, k.1)
