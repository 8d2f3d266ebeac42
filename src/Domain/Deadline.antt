-- ===== src/Domain/Deadline.antt =====
-- app/domain/deadline.py. A `timedelta` of whole days is added to an instant; the results that
-- Python refuses, a negative grace period and an instant past the year 9999, are errors.
use kxinspect_backend.Base.{
  ℕ, ◌+◌, ◌*◌, ◌-◌, ◌≤◌, ◌≡◌, ◌↔◌, Bool, true, arith, ltb, leb, if◌then◌else◌,
}
use kxinspect_backend.Base.Int.{ℤ, pos, negsuc}
use kxinspect_backend.Core.Clock.{DateTime, datetime_max}

pub data DeadlineResult : Type 0 where
  at : DateTime → DeadlineResult
  value_error overflow_error : DeadlineResult

abbrev pub day_micros : ℕ
day_micros = 86_400_000_000

unfoldable pub deadline_for : DateTime → ℤ → DeadlineResult
deadline_for raised_at (negsuc n) = value_error
deadline_for raised_at (pos days) =
    let moment = raised_at + days * day_micros in
    if ltb datetime_max moment then overflow_error else at moment

-- `now >= deadlineAt`
unfoldable pub is_expired : DateTime → DateTime → Bool
is_expired now deadline_at = leb deadline_at now

-- `max(remaining, 0.0)`, in microseconds.
unfoldable pub seconds_until : DateTime → DateTime → ℕ
seconds_until now deadline_at = deadline_at - now

-- A computed deadline has elapsed exactly when as many whole days as the grace period have passed
-- since the charge was raised, the boundary instant included; and then, and only then, no time
-- remains until it.
pub deadline_boundary :
    (raised now d : DateTime) (days : ℕ)
    → deadline_for raised (pos days) ≡ at d
    → ((is_expired now d ≡ true) ↔ (raised + days * day_micros ≤ now))
      × ((is_expired now d ≡ true) ↔ (seconds_until now d ≡ 0))
unfolding deadline_for is_expired seconds_until
deadline_boundary raised now d days h = (ground arith, ground arith)

-- Once elapsed, a deadline stays elapsed as the clock moves on.
pub is_expired_mono :
    (now later d : DateTime) → now ≤ later → is_expired now d ≡ true → is_expired later d ≡ true
unfolding is_expired
is_expired_mono now later d h e = ground arith
