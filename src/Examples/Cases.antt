-- ===== src/Examples/Cases.antt =====
-- Runs of the use cases, beside a transaction that commits between two statements.
use wager_ledger.Base.{
  ℕ, ap₂, sym, ◌+◌, ◌++◌, pos, ◌+ℤ◌, ◌-ℤ◌, wrap64, Bytes, codes, str_eq, true, [], ◌∷◌, some, ◌≡◌,
  ◌≢◌, ◌↔◌, refl, arith,
}
use wager_ledger.Errors.{ports, PortsError, usecase, UsecaseError, ok, err}
use wager_ledger.Money.{
  normalize_currency, from_minor_units, is_negative, is_zero, sub, sub_int64, same_currency,
}
use wager_ledger.Wallet.{rehydrate}
use wager_ledger.Wagertx.{WagerTransaction, bet, processed, pending_reference, win, to_kind}
use wager_ledger.Wagertx
use wager_ledger.Postgres.{
  Db, find_wallet, scan_wallet, count_by_wallet, sum_by_wallet, max_currency, select_one, exists,
  entry_sum, entry_change, transaction_row, scan_wager_tx, find_by_idempotency_key, nullable_string,
  deref, nullable_time, timestamptz,
}
use wager_ledger.Usecase.Monad.{Env, World}
use wager_ledger.Usecase.Outcomes.{Input}
use wager_ledger.Usecase.Process.{execute, payload_hash, supported}
use wager_ledger.Usecase.Idempotency.{CanonicalWagerFields, compute_payload_hash}
use wager_ledger.Usecase.Idempotency.Distinct.{IsDelimited, IsTexts, canonical_json-injective}
use wager_ledger.Usecase.Replay.{replay_of, execute_replay, execute_conflict}
use wager_ledger.Usecase.Retries.{execute-final}
use wager_ledger.Usecase.OpenWallet.{open_wallet}
use wager_ledger.Usecase.Reconcile.{ReconcileOutput, reconcile}
use wager_ledger.Books.Drift.{IsTable, Drift, Drift-refl, still, row_of, balance_of}
use wager_ledger.Books.Runs.{KeepsBooks}
use wager_ledger.Books.Execution.{execute-Drift}
use wager_ledger.Books.Kept.{HasAmounts}
use wager_ledger.Books.Opening.{open_wallet-Drift}
use wager_ledger.Books.Reconciliation.{reconcile_exact}
use wager_ledger.Examples.Domain.{usd, stake}
use wager_ledger.Examples.Store.{books}

-- Identifiers of one letter, a clock of ticks, and nobody else at work.
abbrev pub alone : Env
alone = record {
  new_id = λ n. (b'a' + n) ∷ [];
  now = λ n. pos n;
  sha256_hex = λ s. codes "hash";
  json_string = λ s. s;
  others = λ n db. db;
}

pub alone-KeepsBooks : KeepsBooks alone
alone-KeepsBooks n db t = Drift-refl db t

abbrev pub at_start : Db → World
at_start db = record { db = db; base = db; tick = 0; next_id = 0 }

abbrev pub request : Input
request = record {
  provider_id = codes "pr";
  external_transaction_id = codes "x";
  idempotency_key = codes "k";
  player_id = codes "p";
  wallet_id = codes "w";
  round_id = codes "r";
  game_id = codes "g";
  kind = codes "BET";
  amount = usd (pos 250);
  reference_external_transaction_id = [];
}

pub books-IsTable : IsTable books.wallets
unfolding exists
books-IsTable = (refl, (omega arith, omega arith), (omega arith, omega arith), tt)

execute-Drift_example : Drift still books (execute alone request (at_start books)).1.base
execute-Drift_example =
    execute-Drift alone alone-KeepsBooks request (at_start books) books-IsTable
      (omega arith, omega arith)

-- a WIN that waits for its BET
abbrev pub waiting : Db
waiting = record books {
  transactions =
      transaction_row
        (record stake { kind = win; status = pending_reference; reference_external_id = codes "y" })
      ∷ [];
}

pub waiting-HasAmounts : HasAmounts waiting
unfolding transaction_row
waiting-HasAmounts = ((omega arith, omega arith), tt)

open_wallet-Drift_example :
    Drift still books
      (open_wallet alone
        (record { player_id = codes "q"; initial_balance = usd (pos 500) })
        (at_start books)).1.base
open_wallet-Drift_example =
    open_wallet-Drift alone alone-KeepsBooks
      (record { player_id = codes "q"; initial_balance = usd (pos 500) }) (at_start books)
      books-IsTable (omega arith, omega arith)

-- the stored outcome of `request`, with a payload hash
abbrev pub outcome : Bytes → WagerTransaction
outcome hash = record stake {
  status = processed;
  payload_hash = hash;
  financial_result = some (usd (pos 750));
}

abbrev pub with_outcome : Bytes → Db
with_outcome hash = record books { transactions = transaction_row (outcome hash) ∷ [] }

outcome-found :
    find_by_idempotency_key (codes "k") (with_outcome (codes "hash")) ≡ ok (outcome (codes "hash"))
unfolding find_by_idempotency_key select_one scan_wager_tx transaction_row nullable_string deref
    nullable_time timestamptz from_minor_units normalize_currency Wagertx.rehydrate str_eq
outcome-found = refl

other-found :
    find_by_idempotency_key (codes "k") (with_outcome (codes "other"))
    ≡ ok (outcome (codes "other"))
unfolding find_by_idempotency_key select_one scan_wager_tx transaction_row nullable_string deref
    nullable_time timestamptz from_minor_units normalize_currency Wagertx.rehydrate str_eq
other-found = refl

execute_replay_example :
    ((execute alone request (at_start (with_outcome (codes "hash")))).0
      ≡ ok (replay_of (outcome (codes "hash")) (usd (pos 750))))
    × ((execute alone request (at_start (with_outcome (codes "hash")))).1.base
        ≡ with_outcome (codes "hash"))
unfolding supported to_kind payload_hash compute_payload_hash str_eq
execute_replay_example =
    execute_replay alone request (at_start (with_outcome (codes "hash"))) (outcome (codes "hash"))
      refl refl outcome-found (usd (pos 750)) refl refl

execute_conflict_example :
    ((execute alone request (at_start (with_outcome (codes "other")))).0
      ≡ err (usecase UsecaseError.idempotency_conflict))
    × ((execute alone request (at_start (with_outcome (codes "other")))).1.base
        ≡ with_outcome (codes "other"))
unfolding supported to_kind payload_hash compute_payload_hash str_eq
execute_conflict_example =
    execute_conflict alone request (at_start (with_outcome (codes "other")))
      (outcome (codes "other")) refl refl other-found refl

execute-final_example :
    (usecase UsecaseError.idempotency_conflict ≢ ports PortsError.optimistic_lock)
    × (usecase UsecaseError.idempotency_conflict ≢ ports PortsError.already_exists)
unfolding supported to_kind payload_hash compute_payload_hash str_eq
execute-final_example =
    execute-final alone request (at_start (with_outcome (codes "other")))
      (usecase UsecaseError.idempotency_conflict)
      (execute_conflict alone request (at_start (with_outcome (codes "other")))
        (outcome (codes "other")) refl refl other-found refl).0

-- a JSON that marks each letter, and the end
quoted : Bytes → Bytes
quoted [] = 0 ∷ []
quoted (b ∷ s) = 1 ∷ b ∷ quoted s

abbrev quoting : Env
quoting = record alone { json_string = quoted }

no_mark : {s t : Bytes} → (0 ∷ s) ≡ (1 ∷ t) → ⊥
no_mark h = cc

same_letter : {b c : ℕ} {s t : Bytes} → (1 ∷ b ∷ s) ≡ (1 ∷ c ∷ t) → (b ≡ c) × (s ≡ t)
same_letter h = (cc, cc)

last_mark : {x y : Bytes} → (0 ∷ x) ≡ (0 ∷ y) → x ≡ y
last_mark h = cc

quoted-split : (s t x y : Bytes) → quoted s ++ x ≡ quoted t ++ y → (s ≡ t) × (x ≡ y)
unfolding quoted
quoted-split [] [] x y h = (refl, last_mark h)
quoted-split [] (b ∷ t) x y h = absurd (no_mark h)
quoted-split (b ∷ s) [] x y h = absurd (no_mark (sym h))
quoted-split (b ∷ s) (c ∷ t) x y h =
    let (head, rest) = same_letter h in
    let (tail, last) = quoted-split s t x y rest in (ap₂ (λ a r. a ∷ r) head tail, last)

quoting-IsDelimited : IsDelimited quoting (λ s. Unit)
quoting-IsDelimited = record { split = λ s t x y p q h. quoted-split s t x y h }

abbrev fields : CanonicalWagerFields
fields = record {
  provider_id = codes "pr";
  external_transaction_id = codes "x";
  player_id = codes "p";
  wallet_id = codes "w";
  round_id = codes "r";
  game_id = codes "g";
  kind = codes "BET";
  money_amount = codes "2.50";
  money_currency = codes "USD";
  reference_external_transaction_id = [];
}

fields-IsTexts : IsTexts (λ s. Unit) fields
fields-IsTexts = record {
  provider_id = tt;
  external_transaction_id = tt;
  player_id = tt;
  wallet_id = tt;
  round_id = tt;
  game_id = tt;
  kind = tt;
  money_amount = tt;
  money_currency = tt;
  reference_external_transaction_id = tt;
}

canonical_json-injective_example : fields ≡ fields
canonical_json-injective_example =
    canonical_json-injective quoting (λ s. Unit) quoting-IsDelimited fields fields fields-IsTexts
      fields-IsTexts refl

abbrev report : ReconcileOutput
report = record {
  wallet_id = codes "w";
  stored_balance = usd (pos 1_000);
  calculated_balance = usd (pos 1_000);
  difference = usd (pos 0);
  consistent = true;
  checked_entries = 1;
}

reconcile_exact_example :
    (pos 0 ≡ balance_of (row_of (codes "w") books) -ℤ entry_sum (codes "w") books.entries)
    × ((true ≡ true)
        ↔ (balance_of (row_of (codes "w") books) ≡ entry_sum (codes "w") books.entries))
unfolding reconcile find_wallet scan_wallet select_one str_eq from_minor_units normalize_currency
    rehydrate is_negative is_zero count_by_wallet sum_by_wallet entry_sum entry_change ◌+ℤ◌ ◌-ℤ◌
    max_currency sub sub_int64 same_currency wrap64
reconcile_exact_example = reconcile_exact (codes "w") books {out = report} books-IsTable refl
