-- ===== src/Core/Clock.antt =====
-- app/core/clock.py. A `datetime` in UTC is the number of microseconds since the start of the year
-- 1, the smallest that Python has. An instant on the wire, a text such as
-- `2026-08-01T12:00:00.250Z`, is held as the number of milliseconds that it denotes: the text has
-- no finer digits, and its spelling is not modelled. Every instant of the model is aware.
use kxinspect_backend.Base.{ℕ, ◌+◌, ◌*◌, ◌/◌, ◌≤◌, arith}

-- Microseconds since the year 1.
abbrev pub DateTime : Type 0
DateTime = ℕ

-- The last instant of the year 9999, `datetime.max`.
abbrev pub datetime_max : DateTime
datetime_max = 315_537_897_599_999_999

-- What a text of the contract's form denotes, in milliseconds since the year 1.
pub record Stamp : Type 0 where
  pub millis : ℕ

-- `format_instant` cuts the microseconds to milliseconds.
unfoldable pub format_instant : DateTime → Stamp
format_instant moment = record { millis = moment / 1000 }

unfoldable pub parse_instant : Stamp → DateTime
parse_instant value = value.millis * 1000

-- A rendered instant reads back as the instant cut to whole milliseconds: never later, and less
-- than a millisecond earlier.
parse-format_instant :
    (t : DateTime)
    → (parse_instant (format_instant t) ≤ t) × (t ≤ parse_instant (format_instant t) + 999)
unfolding parse_instant format_instant
parse-format_instant t = (omega arith, omega arith)
