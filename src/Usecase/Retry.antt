-- ===== src/Usecase/Retry.antt =====
-- internal/application/usecase/process_wager_transaction.go: the rounds of `Execute`.
use wager_ledger.Base.{ℕ, zero, suc, Bool, true, false, if◌then◌else◌}
use wager_ledger.Errors.{Error, PortsError, ports, UsecaseError, usecase, Result, ok, err}
use wager_ledger.Usecase.Monad.{World, Action, uow_execute}

-- `errors.Is(execErr, ports.ErrOptimisticLock) || errors.Is(execErr, ports.ErrAlreadyExists)`
unfoldable pub is_conflict : Error → Bool
is_conflict (ports PortsError.optimistic_lock) = true
is_conflict (ports PortsError.already_exists) = true
is_conflict e = false

-- What follows an attempt, given the rounds that are left.
unfoldable pub after_attempt {ℓ} : {A : Type ℓ} → Action A → Result A × World → Result A × World
unfolding is_conflict
after_attempt again (ok out, w) = (ok out, w)
after_attempt again (err e, w) = if is_conflict e then again w else (err e, w)

-- `for attempt := 0; attempt < uc.maxRetries; attempt++`, on the rounds left
unfoldable pub retry {ℓ} : {A : Type ℓ} → ℕ → Action A → Action A
unfolding after_attempt
retry zero m w = (err (usecase UsecaseError.too_many_retries), w)
retry (suc rounds) m w = after_attempt (retry rounds m) (uow_execute m w)

abbrev pub max_retries : ℕ
max_retries = 5
