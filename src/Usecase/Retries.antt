-- ===== src/Usecase/Retries.antt =====
-- What the rounds of `Execute` and the delays of the worker come to (process_wager_transaction.go).
use wager_ledger.Base.{
  ℕ, zero, suc, ◌*◌, ◌≤◌, Bool, true, false, not, if◌then◌else◌, ◌≡◌, ◌≢◌, refl, arith, Bool-cases,
  inl, inr,
}
use wager_ledger.Errors.{Error, ports, PortsError, usecase, UsecaseError, Result, ok, err}
use wager_ledger.Wagertx.{to_kind}
use wager_ledger.Usecase.Monad.{Env, World, Action, raise, uow_execute}
use wager_ledger.Usecase.Outcomes.{Input}
use wager_ledger.Usecase.Retry.{is_conflict, after_attempt, retry, max_retries}
use wager_ledger.Usecase.Process.{execute, supported, attempt, payload_hash}
use wager_ledger.Usecase.Resume.{reference_retry_backoff, second}

after_attempt-final :
    {A : Type 0} (again : Action A) (x : Result A × World) (e : Error)
    → ((w : World) → (again w).0 ≡ err e → is_conflict e ≡ false)
    → (after_attempt again x).0 ≡ err e
    → is_conflict e ≡ false
unfolding after_attempt
after_attempt-final again (ok out, w) e h k = absurd (cc)
after_attempt-final again (err e', w) e h k = elim (Bool-cases (is_conflict e')) [
  | inl again_ ↦ h w (ground arith)
  | inr final ↦ ground arith
]

retry-final :
    {A : Type 0} (n : ℕ) (m : Action A) (w : World) (e : Error)
    → (retry n m w).0 ≡ err e
    → is_conflict e ≡ false
unfolding retry is_conflict
retry-final zero m w e h = ground arith
retry-final (suc n) m w e h =
    after_attempt-final (retry n m) (uow_execute m w) e (λ w'. retry-final n m w' e) h

guarded-final :
    {A : Type 0} (c : Bool) (refusal : Error) (m : Action A) (w : World) (e : Error)
    → is_conflict refusal ≡ false
    → ((if c then raise refusal else retry max_retries m) w).0 ≡ err e
    → is_conflict e ≡ false
guarded-final true refusal m w e r h = ground arith
guarded-final false refusal m w e r h = retry-final max_retries m w e h

no-conflict :
    (e : Error)
    → is_conflict e ≡ false
    → (e ≢ ports PortsError.optimistic_lock) × (e ≢ ports PortsError.already_exists)
unfolding is_conflict
no-conflict e h = (
  λ same. let no : true ≡ false = rw same at h in cc,
  λ same. let no : true ≡ false = rw same at h in cc,
)

-- The error that `Execute` hands its caller, if it does, is neither an optimistic lock nor an already existing
-- row.
pub execute-final :
    (env : Env) (input : Input) (w : World) (e : Error)
    → (execute env input w).0 ≡ err e
    → (e ≢ ports PortsError.optimistic_lock) × (e ≢ ports PortsError.already_exists)
unfolding execute is_conflict
execute-final env input w e h = no-conflict e (
    guarded-final (not (supported (to_kind input.kind))) (usecase UsecaseError.unsupported_kind)
      (attempt env input (to_kind input.kind) (payload_hash env input)) w e refl h)

-- The delays in seconds.
seconds : ℕ → ℕ
seconds zero = 1
seconds (suc zero) = 2
seconds (suc (suc zero)) = 4
seconds (suc (suc (suc zero))) = 8
seconds (suc (suc (suc (suc zero)))) = 16
seconds (suc (suc (suc (suc (suc n))))) = 30

backoff-seconds : (n : ℕ) → reference_retry_backoff n ≡ seconds n * second
unfolding reference_retry_backoff seconds
backoff-seconds zero = refl
backoff-seconds (suc zero) = refl
backoff-seconds (suc (suc zero)) = refl
backoff-seconds (suc (suc (suc zero))) = refl
backoff-seconds (suc (suc (suc (suc zero)))) = refl
backoff-seconds (suc (suc (suc (suc (suc zero))))) = refl
backoff-seconds (suc (suc (suc (suc (suc (suc n)))))) = ground arith

seconds_bounds :
    (n : ℕ)
    → (1 ≤ seconds n) × (seconds n ≤ 30) × (seconds n ≤ seconds (suc n)) × (5 ≤ n → seconds n ≡ 30)
unfolding seconds
seconds_bounds n = ground arith

-- The delay before the worker tries a pending reference again lies between 1 and 30 seconds, it
-- does not fall as the attempts grow, and from the fifth attempt on it is 30 seconds.
pub reference_retry_backoff_bounds :
    (n : ℕ)
    → (second ≤ reference_retry_backoff n)
      × (reference_retry_backoff n ≤ 30 * second)
      × (reference_retry_backoff n ≤ reference_retry_backoff (suc n))
      × (5 ≤ n → reference_retry_backoff n ≡ 30 * second)
reference_retry_backoff_bounds n =
    let b = seconds_bounds n in
    rw (backoff-seconds n, backoff-seconds (suc n))
      (omega (arith, b.0), omega (arith, b.1), omega (arith, b.2), λ h. rw (b.3 h) refl)
