-- ===== src/Postgres/Pages/Cursor.antt =====
-- The cursor of a page leads back to the key that it was made of.
use wager_ledger.Base.{◌==◌, false, Bytes, is_empty, some, [], ◌∷◌, ◌++◌, ◌≡◌, All, refl}
use wager_ledger.Wallet.{Time}
use wager_ledger.Postgres.Pages.{Codec, split_bar, encode_ledger_cursor, decode_ledger_cursor}

-- What the libraries document: what was written is read back, a time has no bar, and no text but
-- the empty one is encoded as the empty text.
pub record IsFaithful (codec : Codec) : Type 0 where
  pub times : (t : Time) → codec.parse_time (codec.format_time t) ≡ some t
  pub no_bar : (t : Time) → All (λ b. (b == b'|') ≡ false) (codec.format_time t)
  pub texts : (s : Bytes) → codec.decode_base64 (codec.encode_base64 s) ≡ some s
  pub nonempty : (s : Bytes) → is_empty s ≡ false → is_empty (codec.encode_base64 s) ≡ false

split_bar-first :
    (s t : Bytes) → All (λ b. (b == b'|') ≡ false) s → split_bar (s ++ b'|' ∷ t) ≡ some (s, t)
unfolding split_bar
split_bar-first [] t h = refl
split_bar-first (b ∷ s) t (e, h) = rw (e, split_bar-first s t h) refl

append-nonempty : (s t : Bytes) → is_empty (s ++ b'|' ∷ t) ≡ false
append-nonempty [] t = refl
append-nonempty (b ∷ s) t = refl

module _ (codec : Codec) (faithful : IsFaithful codec) (key : Time × Bytes) where
  -- A cursor is not empty, and it is read back as the time and the id that it was made of.
  pub decode-encode_ledger_cursor :
      (is_empty (encode_ledger_cursor codec key) ≡ false)
      × (decode_ledger_cursor codec (encode_ledger_cursor codec key) ≡ some key)
  unfolding encode_ledger_cursor decode_ledger_cursor
  decode-encode_ledger_cursor = (
    faithful.nonempty _ (append-nonempty (codec.format_time key.0) key.1),
    rw
        (
          faithful.texts (codec.format_time key.0 ++ b'|' ∷ key.1),
          split_bar-first (codec.format_time key.0) key.1 (faithful.no_bar key.0),
          faithful.times key.0,
        )
        refl,
  )
