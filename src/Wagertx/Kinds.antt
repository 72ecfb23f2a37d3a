-- ===== src/Wagertx/Kinds.antt =====
-- internal/domain/wagertx/wagertx.go: kinds, statuses and the rules by kind.
use wager_ledger.Base.{Bool, true, false, Bytes, codes, str_eq, if◌then◌else◌, Option, none, some}

-- A Go `Kind` is a string: one of the six constants, or any other text.
pub data Kind : Type 0 where
  bet win loss refund rollback opening : Kind
  other : Bytes → Kind

-- `Kind(s)`
unfoldable pub to_kind : Bytes → Kind
unfolding str_eq
to_kind s =
    if str_eq s (codes "BET")
    then bet
    else if str_eq s (codes "WIN")
    then win
    else if str_eq s (codes "LOSS")
    then loss
    else if str_eq s (codes "REFUND")
    then refund
    else if str_eq s (codes "ROLLBACK")
    then rollback
    else if str_eq s (codes "OPENING")
    then opening
    else other s

-- `string(kind)`
unfoldable pub kind_text : Kind → Bytes
kind_text bet = codes "BET"
kind_text win = codes "WIN"
kind_text loss = codes "LOSS"
kind_text refund = codes "REFUND"
kind_text rollback = codes "ROLLBACK"
kind_text opening = codes "OPENING"
kind_text (other s) = s

pub data Status : Type 0 where
  pending pending_reference processed rejected failed : Status

unfoldable pub status_text : Status → Bytes
status_text pending = codes "PENDING"
status_text pending_reference = codes "PENDING_REFERENCE"
status_text processed = codes "PROCESSED"
status_text rejected = codes "REJECTED"
status_text failed = codes "FAILED"

abbrev pub is_processed : Status → Bool
is_processed processed = true
is_processed _ = false

abbrev pub is_pending_reference : Status → Bool
is_pending_reference pending_reference = true
is_pending_reference _ = false

abbrev pub is_pending : Status → Bool
is_pending pending = true
is_pending _ = false

-- REFUND or ROLLBACK
abbrev pub is_reversal : Kind → Bool
is_reversal refund = true
is_reversal rollback = true
is_reversal _ = false

pub data AmountRule : Type 0 where
  amount_must_be_positive amount_must_be_zero : AmountRule

pub record Rules : Type 0 where
  pub amount_rule : AmountRule
  pub reference_required : Bool
  pub reference_allowed : Bool

rules : AmountRule → Bool → Bool → Rules
rules a q p = record { amount_rule = a; reference_required = q; reference_allowed = p }

-- `none` is `ok == false`.
unfoldable pub rules_for : Kind → Option Rules
unfolding rules
rules_for bet = some (rules amount_must_be_positive false false)
rules_for win = some (rules amount_must_be_positive false true)
rules_for loss = some (rules amount_must_be_zero false false)
rules_for refund = some (rules amount_must_be_positive true true)
rules_for rollback = some (rules amount_must_be_positive true true)
rules_for opening = none
rules_for (other s) = none
