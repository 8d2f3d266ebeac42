-- ===== src/Tests/Domain.antt =====
-- The charge lifecycle, deadlines and amounts at concrete values.
use kxinspect_backend.Base.{◌+◌, ◌*◌, ◌≤◌, ◌≡◌, ◌↔◌, refl, true, Option, some, none, if◌then◌else◌}
use kxinspect_backend.Domain.ChargeState.{
  outstanding, accepted, paid, accept, pay, Actor, AcceptanceOrigin, transition,
  transition_accepted, actor_for, status_eq,
}
use kxinspect_backend.Domain.ChargeState.Lifecycle.{
  Edge, transition-Edge_iff, acceptance_origin_lem, origin_of, PathOf, here, step,
  lifecycle_terminates, rank,
}
use kxinspect_backend.Domain.Deadline.{
  deadline_for, is_expired, seconds_until, day_micros, deadline_boundary,
}
use kxinspect_backend.Domain.CostBreakdown.{
  default_cost_breakdown, breakdown_total, default_cost_breakdown-sum,
}

transition-Edge_iff_example : Edge accepted pay paid Actor.student ↔ (
    ((o : Option AcceptanceOrigin) × (transition accepted pay
        ≡ transition_accepted accepted pay paid o))
    × (actor_for pay ≡ some Actor.student))
transition-Edge_iff_example = transition-Edge_iff accepted pay paid Actor.student

acceptance_origin_lem_example :
    (a : Actor) × (actor_for accept ≡ some a)
    × (some AcceptanceOrigin.student
        ≡ (if status_eq accepted accepted then some (origin_of a) else none))
unfolding transition
acceptance_origin_lem_example =
    acceptance_origin_lem outstanding accept accepted (some AcceptanceOrigin.student) refl

abbrev accept_and_pay : PathOf outstanding 2 paid
unfolding transition
accept_and_pay = step accept (some AcceptanceOrigin.student) refl (step pay none refl here)

lifecycle_terminates_example : 2 + rank paid ≤ rank outstanding
lifecycle_terminates_example = lifecycle_terminates accept_and_pay

deadline_boundary_example :
    ((is_expired 86_400_000_000 86_400_000_000 ≡ true) ↔ (0 + 1 * day_micros ≤ 86_400_000_000))
    × ((is_expired 86_400_000_000 86_400_000_000 ≡ true)
        ↔ (seconds_until 86_400_000_000 86_400_000_000 ≡ 0))
unfolding deadline_for
deadline_boundary_example = deadline_boundary 0 86_400_000_000 86_400_000_000 1 refl

default_cost_breakdown-sum_example : breakdown_total (default_cost_breakdown 9999) ≡ 9999
default_cost_breakdown-sum_example = default_cost_breakdown-sum 9999
