-- ===== src/Examples/Pages.antt =====
-- A ledger of two entries, read in pages of one.
use wager_ledger.Base.{
  ℕ, zero, suc, pos, negsuc, ◌+ℤ◌, ◌-ℤ◌, wrap64, false, ◌==◌, Bytes, codes, str_eq, is_empty,
  Option, none, some, [], ◌∷◌, All, ◌≡◌, refl, ap, arith, if◌then◌else◌,
}
use wager_ledger.Errors.{ok}
use wager_ledger.Money.{
  from_minor_units, normalize_currency, is_zero, is_negative, add, sub, add_int64, sub_int64,
  same_currency, equals,
}
use wager_ledger.Wallet.{Time}
use wager_ledger.Ledger.{Entry, debit, credit, new_entry}
use wager_ledger.Postgres.{
  Db, Codec, text_le, created_before, select_all, order_by, insert_ordered, entry_key, scan_entry,
  scan_entries, encode_ledger_cursor, decode_ledger_cursor,
}
use wager_ledger.Postgres.Pages.Cursor.{IsFaithful, decode-encode_ledger_cursor}
use wager_ledger.Postgres.Pages.Complete.{ledger_rows, read_pages, read_pages_complete}
use wager_ledger.Postgres.Queries.Strict.{Distinct}
use wager_ledger.Postgres.Pages.{entry_before}
use wager_ledger.Examples.Domain.{usd}
use wager_ledger.Examples.Store.{books}

-- a number as so many letters, behind a letter for its sign; texts are encoded as they are
tally : ℕ → Bytes
tally zero = []
tally (suc n) = b'i' ∷ tally n

count : Bytes → ℕ
count [] = 0
count (b ∷ s) = suc (count s)

abbrev write_time : Time → Bytes
unfolding tally
write_time (pos n) = b'p' ∷ tally n
write_time (negsuc n) = b'n' ∷ tally n

abbrev read_time : Bytes → Option Time
unfolding count
read_time [] = none
read_time (b ∷ s) = if b == b'p' then some (pos (count s)) else some (negsuc (count s))

abbrev plain : Codec
plain = record {
  format_time = write_time;
  parse_time = read_time;
  encode_base64 = λ s. s;
  decode_base64 = λ s. some s;
}

count-tally : (n : ℕ) → count (tally n) ≡ n
unfolding count tally
count-tally zero = refl
count-tally (suc n) = ap suc (count-tally n)

tally-no_bar : (n : ℕ) → All (λ b. (b == b'|') ≡ false) (tally n)
unfolding tally
tally-no_bar zero = tt
tally-no_bar (suc n) = (refl, tally-no_bar n)

times-read : (t : Time) → plain.parse_time (plain.format_time t) ≡ some t
unfolding read_time write_time
times-read (pos n) = rw (count-tally n) refl
times-read (negsuc n) = rw (count-tally n) refl

times-no_bar : (t : Time) → All (λ b. (b == b'|') ≡ false) (plain.format_time t)
unfolding write_time
times-no_bar (pos n) = (refl, tally-no_bar n)
times-no_bar (negsuc n) = (refl, tally-no_bar n)

plain-IsFaithful : IsFaithful plain
plain-IsFaithful = record {
  times = times-read;
  no_bar = times-no_bar;
  texts = λ s. refl;
  nonempty = λ s h. h;
}

decode-encode_ledger_cursor_example :
    (is_empty (encode_ledger_cursor plain (pos 3, codes "e")) ≡ false)
    × (decode_ledger_cursor plain (encode_ledger_cursor plain (pos 3, codes "e"))
        ≡ some (pos 3, codes "e"))
decode-encode_ledger_cursor_example =
    decode-encode_ledger_cursor plain plain-IsFaithful (pos 3, codes "e")

abbrev two_entries : Db
two_entries = record books {
  entries =
      record {
        id = codes "f";
        wallet_id = codes "w";
        transaction_id = codes "t";
        direction = debit;
        amount_minor_units = pos 250;
        currency = codes "USD";
        balance_before_minor_units = pos 1_000;
        balance_after_minor_units = pos 750;
        created_at = pos 5;
      }
      ∷ books.entries;
}

abbrev entry_e : Entry
entry_e = record {
  id = codes "e";
  wallet_id = codes "w";
  transaction_id = codes "o";
  direction = credit;
  amount = usd (pos 1_000);
  balance_before = usd (pos 0);
  balance_after = usd (pos 1_000);
  created_at = pos 0;
}

abbrev entry_f : Entry
entry_f = record {
  id = codes "f";
  wallet_id = codes "w";
  transaction_id = codes "t";
  direction = debit;
  amount = usd (pos 250);
  balance_before = usd (pos 1_000);
  balance_after = usd (pos 750);
  created_at = pos 5;
}

distinct : Distinct entry_before two_entries.entries
unfolding created_before entry_key text_le
distinct = ((refl, tt), (tt, tt))

entries-scanned :
    scan_entries (codes "w") (ledger_rows (codes "w") two_entries) ≡ ok (entry_e ∷ entry_f ∷ [])
unfolding scan_entries scan_entry select_all order_by insert_ordered created_before entry_key
    text_le str_eq from_minor_units normalize_currency new_entry is_zero is_negative add sub
    add_int64 sub_int64 same_currency equals wrap64 ◌+ℤ◌ ◌-ℤ◌
entries-scanned = refl

read_pages_complete_example :
    read_pages plain (codes "w") (pos 1) two_entries 3 [] ≡ some (entry_e ∷ entry_f ∷ [])
read_pages_complete_example =
    read_pages_complete plain (codes "w") (pos 1) two_entries (entry_e ∷ entry_f ∷ []) 3
      plain-IsFaithful distinct entries-scanned (omega arith)
