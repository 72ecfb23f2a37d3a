-- ===== src/Usecase/OpenWallet.antt =====
-- internal/application/usecase/open_wallet.go
use wager_ledger.Base.{ℤ, false, Bytes, none, [], if◌then◌else◌}
use wager_ledger.Errors.{Error, PortsError, ports, UsecaseError, usecase, Result, ok, err}
use wager_ledger.Money.{Money, is_zero, zero_money}
use wager_ledger.Wallet.{Wallet, Time, new_wallet}
use wager_ledger.Wagertx.{opening, kind_text, new_opening_transaction}
use wager_ledger.Ledger.{credit, direction_text, new_entry}
use wager_ledger.Event.{Event, new_wager_transaction_processed, new_wallet_balance_changed}
use wager_ledger.Postgres.{create_wallet, create_transaction, create_entry, create_outbox}
use wager_ledger.Usecase.Monad.{
  Env, World, Action, ◌>>=◌, ◌>>◌, pure, lift, exec, clock, fresh, uow_execute,
}

-- `OpenWalletInput`
pub record OpenInput : Type 0 where
  pub player_id : Bytes
  pub initial_balance : Money

-- `OpenWalletOutput`
pub record OpenOutput : Type 0 where
  pub id : Bytes
  pub player_id : Bytes
  pub balance : Money
  pub version : ℤ

-- `errors.Is(err, ports.ErrAlreadyExists)` becomes the error of the use case.
unfoldable pub open_error : Error → Error
open_error (ports PortsError.already_exists) = usecase UsecaseError.wallet_already_exists
open_error e = e

unfoldable pub translated {ℓ} : {A : Type ℓ} → Result A × World → Result A × World
unfolding open_error
translated (ok a, w) = (ok a, w)
translated (err e, w) = (err (open_error e), w)

module _ (env : Env) where
  unfoldable pub record_event : (Bytes → Event) → Action (Unit {0})
  record_event make = do
    id ← fresh env
    inserted_at ← clock env
    exec env (create_outbox (make id) inserted_at)

  -- the OPENING transaction with its entry and events
  unfoldable pub record_opening : OpenInput → Wallet → Time → Action (Unit {0})
  unfolding record_event
  record_opening input w now = do
    tx_id ← fresh env
    opening_tx ← lift (new_opening_transaction tx_id w.id w.player_id input.initial_balance now)
    exec env (create_transaction opening_tx)
    zero ← lift (zero_money input.initial_balance.currency)
    entry_id ← fresh env
    entry ←
        lift (new_entry entry_id w.id opening_tx.id credit input.initial_balance zero w.balance now)
    exec env (create_entry entry)
    record_event λ id. new_wager_transaction_processed id w.id opening_tx.id now (record {
      transaction_id = opening_tx.id;
      wallet_id = w.id;
      player_id = w.player_id;
      kind = kind_text opening;
      provider_id = [];
      external_id = [];
      amount = input.initial_balance;
      financial_result = none;
      idempotent_replay = false;
    })
    record_event λ id. new_wallet_balance_changed id w.id opening_tx.id now (record {
      wallet_id = w.id;
      transaction_id = opening_tx.id;
      direction = direction_text credit;
      amount = input.initial_balance;
      balance_before = zero;
      balance_after = w.balance;
      wallet_version = w.version;
    })

  -- the function that `Execute` hands to the unit of work
  unfoldable pub store_wallet : OpenInput → Wallet → Time → Action (Unit {0})
  store_wallet input w now = do
    exec env (create_wallet w)
    if is_zero input.initial_balance then pure tt else record_opening input w now

  unfoldable pub open_wallet : OpenInput → Action OpenOutput
  unfolding translated
  open_wallet input = do
    now ← clock env
    id ← fresh env
    w ← lift (new_wallet id input.player_id input.initial_balance now)
    λ (world : World). translated (uow_execute (store_wallet input w now) world)
    pure (record { id = w.id; player_id = w.player_id; balance = w.balance; version = w.version })
