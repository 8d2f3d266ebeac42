-- ===== src/Db/Cursor.antt =====
-- The cursors of app/db/models.py, `{streamEpoch}:{storeRevision}:{ordinal}`.
use kxinspect_backend.Base.{ℕ, suc, ◌≡◌, ◌≢◌, refl, Option, none, some, List, [], ◌∷◌, ◌++◌}
use kxinspect_backend.Base.Int.{ℤ, pos}
use kxinspect_backend.Db.Text.{Text, int_of, str, split_colon, render}
use kxinspect_backend.Db.Text.RoundTrip.{
  NoColon, IsDigits-NoColon, render-IsDigits, int_of-str, split_colon-append, split_colon-last,
}

unfoldable pub event_id : Text → ℕ → ℕ → Text
event_id stream_epoch store_revision ordinal =
    stream_epoch ++ (b':' ∷ (str store_revision ++ (b':' ∷ str ordinal)))

-- The cursor of an epoch that has committed no events yet, `{streamEpoch}:0:0`.
unfoldable pub baseline_cursor : Text → Text
baseline_cursor stream_epoch = stream_epoch ++ (b':' ∷ b'0' ∷ b':' ∷ b'0' ∷ [])

pub record Parsed : Type 0 where
  pub epoch : Text
  pub revision : ℤ
  pub ordinal : ℤ

abbrev pub both_ints : Text → Option ℤ → Option ℤ → Option Parsed
both_ints epoch (some r) (some o) = some (record { epoch = epoch; revision = r; ordinal = o })
both_ints epoch _ _ = none

abbrev pub three_parts : List Text → Option Parsed
three_parts ([] ∷ revision ∷ ordinal ∷ []) = none
three_parts ((c ∷ epoch) ∷ revision ∷ ordinal ∷ []) =
    both_ints (c ∷ epoch) (int_of revision) (int_of ordinal)
three_parts _ = none

-- `parse_cursor`; `none` when the text cannot be parsed.
unfoldable pub parse_cursor : Text → Option Parsed
parse_cursor cursor = three_parts (split_colon cursor)

-- A stream epoch that can stand in a cursor: not empty, and without a colon, as a UUID is.
pub record IsEpoch (epoch : Text) : Type 0 where
  pub nonempty : epoch ≢ []
  pub plain : NoColon epoch

-- The id that the store gives an event parses back to its epoch, revision and ordinal, for an epoch
-- that is not empty and has no colon.
pub parse_cursor-event_id :
    (epoch : Text) (revision ordinal : ℕ)
    → IsEpoch epoch
    → parse_cursor (event_id epoch revision ordinal)
      ≡ some (record { epoch = epoch; revision = pos revision; ordinal = pos ordinal })
unfolding parse_cursor event_id
parse_cursor-event_id epoch revision ordinal h =
    rw
      (
        split_colon-append epoch (str revision ++ (b':' ∷ str ordinal)) h.plain,
        split_colon-append (str revision) (str ordinal) (digits revision),
        split_colon-last (str ordinal) (digits ordinal),
      )
      (close epoch h.nonempty)
  where
    digits : (n : ℕ) → NoColon (str n)
    digits n = unfold str in IsDigits-NoColon (render (suc n) n) (render-IsDigits (suc n) n)

    close :
        (e : Text)
        → e ≢ []
        → three_parts (e ∷ str revision ∷ str ordinal ∷ [])
          ≡ some (record { epoch = e; revision = pos revision; ordinal = pos ordinal })
    close [] ne = absurd (ne refl)
    close (c ∷ e) ne = rw (int_of-str revision, int_of-str ordinal)

-- The baseline cursor is the id of revision 0 and ordinal 0.
pub baseline_cursor_lem : (epoch : Text) → baseline_cursor epoch ≡ event_id epoch 0 0
unfolding baseline_cursor event_id str
baseline_cursor_lem epoch = refl
