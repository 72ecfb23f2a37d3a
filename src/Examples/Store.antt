-- ===== src/Examples/Store.antt =====
-- Runs of the repositories, on small tables.
use wager_ledger.Base.{pos, codes, [], ◌∷◌, ◌≡◌, refl, str_eq}
use wager_ledger.Errors.{ports, PortsError, ok, err}
use wager_ledger.Wallet.{Wallet}
use wager_ledger.Ledger.{credit}
use wager_ledger.Postgres.{
  Db, exists, update_where, currency_format, wallet_row, save_wallet, transaction_row,
  transaction_checks, same_transaction, find_transaction, create_transaction, nullable_string,
  nullable_time, timestamptz,
}
use wager_ledger.Postgres.Rows.{as_stored, save_wallet-second_writer, find-create_transaction}
use wager_ledger.Examples.Domain.{usd, usd-normal, purse, stake}

abbrev pub no_rows : Db
no_rows = record { wallets = []; transactions = []; entries = []; inbox = []; outbox = [] }

-- the wallet `purse` with the entry that it begins with
abbrev pub books : Db
books = record no_rows {
  wallets =
      record {
        id = codes "w";
        player_id = codes "p";
        currency = codes "USD";
        balance_minor_units = pos 1_000;
        version = pos 3;
        created_at = pos 0;
        updated_at = pos 0;
      }
      ∷ [];
  entries =
      record {
        id = codes "e";
        wallet_id = codes "w";
        transaction_id = codes "o";
        direction = credit;
        amount_minor_units = pos 1_000;
        currency = codes "USD";
        balance_before_minor_units = pos 0;
        balance_after_minor_units = pos 1_000;
        created_at = pos 0;
      }
      ∷ [];
}

abbrev lower : Wallet
lower = record purse { balance = usd (pos 750); version = pos 4 }

abbrev higher : Wallet
higher = record purse { balance = usd (pos 1_250); version = pos 4 }

save_wallet-second_writer_example :
    save_wallet higher (pos 3) (record books { wallets = wallet_row lower ∷ [] })
    ≡ err (ports PortsError.optimistic_lock)
unfolding save_wallet exists update_where wallet_row str_eq
save_wallet-second_writer_example =
    save_wallet-second_writer lower higher (pos 3) books (λ e. absurd (cc)) refl refl

abbrev with_stake : Db
with_stake = record books { transactions = transaction_row stake ∷ [] }

stake-created : create_transaction stake books ≡ ok with_stake
unfolding create_transaction transaction_row transaction_checks same_transaction exists
    currency_format nullable_string str_eq
stake-created = refl

find-create_transaction_example : find_transaction (codes "t") with_stake ≡ ok stake
unfolding as_stored nullable_time timestamptz
find-create_transaction_example =
    find-create_transaction stake books refl usd-normal tt stake-created
