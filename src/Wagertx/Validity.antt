-- ===== src/Wagertx/Validity.antt =====
-- What the constructors of a wager transaction accept.
use wager_ledger.Base.{
  pos, ◌<ℤ◌, Bool, true, false, ◌||◌, Bytes, is_empty, ◌≡◌, arith, codes, str_eq_sound,
}
use wager_ledger.Errors.{Error, Result, ok, err}
use wager_ledger.Money.{Money, is_negative, is_zero}
use wager_ledger.Wallet.{Time}
use wager_ledger.Wagertx.{
  WagerTransaction, Kind, win, loss, refund, rollback, other, to_kind, kind_text, rules_for,
  is_reversal, pending, new_external_transaction, is_input_validation_error, is_opening,
}
use wager_ledger.Wagertx.Machine.{IsConsistent}

-- The text of the kind that a string is read as is the string.
pub kind_text-to_kind : (s : Bytes) → kind_text (to_kind s) ≡ s
unfolding kind_text to_kind
kind_text-to_kind s = ground (
  arith,
  str_eq_sound s (codes "BET"),
  str_eq_sound s (codes "WIN"),
  str_eq_sound s (codes "LOSS"),
  str_eq_sound s (codes "REFUND"),
  str_eq_sound s (codes "ROLLBACK"),
  str_eq_sound s (codes "OPENING"),
)

abbrev is_other : Kind → Bool
is_other (other s) = true
is_other _ = false

abbrev is_loss : Kind → Bool
is_loss loss = true
is_loss _ = false

-- BET and LOSS refer to no other transaction.
abbrev refers : Kind → Bool
refers win = true
refers refund = true
refers rollback = true
refers _ = false

-- The kinds, amounts, references and identifiers of the operations that providers may send.
pub record IsAcceptable (t : WagerTransaction) : Type 0 where
  pub known_kind : (is_opening t.kind || is_other t.kind) ≡ false
  pub has_id : is_empty t.id ≡ false
  pub has_provider : is_empty t.provider_id ≡ false
  pub has_external : is_empty t.external_id ≡ false
  pub has_key : is_empty t.idempotency_key ≡ false
  pub has_hash : is_empty t.payload_hash ≡ false
  pub has_wallet : is_empty t.wallet_id ≡ false
  pub has_player : is_empty t.player_id ≡ false
  pub has_round : is_empty t.round_id ≡ false
  pub has_game : is_empty t.game_id ≡ false
  pub has_currency : is_empty t.amount.currency ≡ false
  pub zero_loss : is_loss t.kind ≡ true → t.amount.minor_units ≡ pos 0
  pub positive : is_loss t.kind ≡ false → pos 0 <ℤ t.amount.minor_units
  pub reference_given : is_reversal t.kind ≡ true → is_empty t.reference_external_id ≡ false
  pub reference_barred : refers t.kind ≡ false → is_empty t.reference_external_id ≡ true

module _
    (id provider_id external_id idempotency_key payload_hash wallet_id player_id round_id
      game_id : Bytes)
    (kind : Kind) (amount : Money) (reference_external_id : Bytes) (now : Time) where
  abbrev pub built : Result WagerTransaction
  built =
      new_external_transaction id provider_id external_id idempotency_key payload_hash wallet_id
        player_id round_id game_id kind amount reference_external_id now

  -- Every error of `NewExternalTransaction` counts as a malformed payload.
  pub new_external_errors : (e : Error) → built ≡ err e → is_input_validation_error e ≡ true
  unfolding new_external_transaction is_input_validation_error
  new_external_errors e h = ground arith

  -- A transaction that `NewExternalTransaction` builds is PENDING, consistent with its state, and
  -- satisfies the rules of its kind.
  pub new_external_transaction-IsAcceptable :
      {t : WagerTransaction} → built ≡ ok t → (t.status ≡ pending) × IsConsistent t × IsAcceptable t
  unfolding new_external_transaction rules_for is_zero is_negative
  new_external_transaction-IsAcceptable h = ground arith
