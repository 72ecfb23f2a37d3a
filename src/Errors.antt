-- ===== src/Errors.antt =====
-- The sentinel errors of the packages, and the result of a fallible function. `errors.Is` on a
-- sentinel is a match on the constructor; a message that wraps a sentinel is that sentinel.
use wager_ledger.Base.{Bool, true, false, ◌≡◌}

-- internal/domain/money/money.go
pub data MoneyError : Type 0 where
  empty_amount invalid_format excessive_scale negative_not_allowed empty_currency invalid_currency
        currency_mismatch overflow :
      MoneyError

-- internal/domain/wallet/wallet.go
pub data WalletError : Type 0 where
  empty_id empty_player_id negative_initial currency_mismatch amount_must_be_positive
        insufficient_balance invalid_version :
      WalletError

-- internal/domain/wagertx/wagertx.go
pub data WagertxError : Type 0 where
  empty_id empty_provider_id empty_external_id empty_idempotency_key empty_payload_hash
        empty_wallet_id empty_player_id empty_round_id empty_game_id empty_currency
        opening_not_external invalid_kind loss_amount_must_be_zero amount_must_be_positive
        reference_required reference_not_allowed empty_failure_code invalid_transition :
      WagertxError

-- internal/domain/ledger/ledger.go
pub data LedgerError : Type 0 where
  empty_id empty_wallet_id empty_transaction_id invalid_direction amount_must_be_positive
        currency_mismatch balance_mismatch :
      LedgerError

-- internal/application/ports/ports.go
pub data PortsError : Type 0 where
  not_found optimistic_lock already_exists : PortsError

-- internal/application/usecase
pub data UsecaseError : Type 0 where
  idempotency_conflict unsupported_kind wallet_player_mismatch too_many_retries
        wallet_already_exists :
      UsecaseError

-- `database` is an error of Postgres that the code passes on without a class: a violated CHECK or
-- foreign key, a number out of range. `nil_dereference` is a panic.
pub data Error : Type 0 where
  money : MoneyError → Error
  wallet : WalletError → Error
  wagertx : WagertxError → Error
  ledger : LedgerError → Error
  ports : PortsError → Error
  usecase : UsecaseError → Error
  database : Error
  nil_dereference : Error

pub data Result {ℓ} (A : Type ℓ) : Type ℓ where
  ok : A → Result A
  err : Error → Result A

infixl 5 ◌>>=◌
-- `if err != nil { return err }`, and what follows on the value
abbrev pub ◌>>=◌ {ℓ κ} : {B : Type κ} {A : Type ℓ} → Result A → (A → Result B) → Result B
err e >>= next = err e
ok value >>= next = next value

infixl 5 ◌>>◌
abbrev pub ◌>>◌ {ℓ} : {B : Type ℓ} → Result (Unit {0}) → Result B → Result B
checked >> next = checked >>= λ _. next

-- `if bad { return err }`
abbrev pub fail_if : Bool → Error → Result (Unit {0})
fail_if true e = err e
fail_if false e = ok tt

abbrev pub IsOk {ℓ} : {A : Type ℓ} → Result A → Type 0
IsOk (ok a) = Unit
IsOk (err e) = ⊥

pub ok-injective {ℓ} : {A : Type ℓ} {a b : A} → ok a ≡ ok b → a ≡ b
ok-injective h = cc
