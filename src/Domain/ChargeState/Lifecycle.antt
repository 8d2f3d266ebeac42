-- ===== src/Domain/ChargeState/Lifecycle.antt =====
-- What the lifecycle of app/domain/charge_state.py guarantees.
use kxinspect_backend.Base.{
  ◌≡◌, ◌≢◌, ◌⊎◌, ◌↔◌, refl, inl, inr, true, false, Option, none, some, arith, get_elem?, length, ℕ,
  suc, ◌≤◌, ◌+◌, if◌then◌else◌, ◌*◌, ◌<◌,
}
use kxinspect_backend.Domain.ChargeState.{
  transitions, acceptance_origin_by_event, status_eq, ChargeStatus, outstanding, accepted,
  contested, resolved, paid, ChargeEvent, accept, contest, pay, deadline_elapsed, operator_uphold,
  operator_dismiss, AcceptanceOrigin, Actor, transition_accepted, invalid_transition, transition,
  actor_for, is_terminal, appears_in_open, appears_in_history, vector_of, state_vectors,
}

-- The edges of the lifecycle diagram, with the actor who raises each.
pub data Edge : ChargeStatus → ChargeEvent → ChargeStatus → Actor → Type 0 where
  student_accepts : Edge outstanding accept accepted Actor.student
  student_contests : Edge outstanding contest contested Actor.student
  deadline_passes : Edge outstanding deadline_elapsed accepted Actor.system
  student_pays : Edge accepted pay paid Actor.student
  operator_upholds : Edge contested operator_uphold accepted Actor.operator
  operator_dismisses : Edge contested operator_dismiss resolved Actor.operator

ruleset edges = (
  student_accepts, student_contests, deadline_passes, student_pays, operator_upholds,
  operator_dismisses,
)

Edge-transition :
    {s : ChargeStatus} {e : ChargeEvent} {t : ChargeStatus} {a : Actor}
    → Edge s e t a
    → ((o : Option AcceptanceOrigin) × (transition s e ≡ transition_accepted s e t o))
      × (actor_for e ≡ some a)
unfolding transition actor_for
Edge-transition student_accepts = ((some AcceptanceOrigin.student, refl), refl)
Edge-transition student_contests = ((none, refl), refl)
Edge-transition deadline_passes = ((some AcceptanceOrigin.deadline, refl), refl)
Edge-transition student_pays = ((none, refl), refl)
Edge-transition operator_upholds = ((some AcceptanceOrigin.operator, refl), refl)
Edge-transition operator_dismisses = ((none, refl), refl)

Edge-of_transition :
    (s : ChargeStatus) (e : ChargeEvent) (t : ChargeStatus) (a : Actor)
    (o : Option AcceptanceOrigin)
    → transition s e ≡ transition_accepted s e t o
    → actor_for e ≡ some a
    → Edge s e t a
unfolding transition actor_for
Edge-of_transition s e t a o h k = grind (arith, edges)

-- `transition` accepts exactly the edges of the diagram: there is an edge from `s` to `t` for the
-- event `e` and the actor `a` just when `transition s e` is accepted with the target `t`, and `a`
-- is the actor that `actor_for` gives for `e`.
pub transition-Edge_iff :
    (s : ChargeStatus) (e : ChargeEvent) (t : ChargeStatus) (a : Actor)
    → Edge s e t a ↔ (
        ((o : Option AcceptanceOrigin) × (transition s e ≡ transition_accepted s e t o))
        × (actor_for e ≡ some a))
transition-Edge_iff s e t a = (Edge-transition, λ h. Edge-of_transition s e t a h.0.0 h.0.1 h.1)

-- A status is terminal exactly when every event is an invalid transition from it.
is_terminal_iff :
    (s : ChargeStatus)
    → (is_terminal s ≡ true) ↔ ((e : ChargeEvent) → transition s e ≡ invalid_transition s e)
unfolding is_terminal transition
is_terminal_iff s = (stuck s, λ h. ground (arith, h accept, h pay, h operator_uphold))
  where
    stuck :
        (s : ChargeStatus)
        → is_terminal s ≡ true
        → (e : ChargeEvent) → transition s e ≡ invalid_transition s e
    stuck s h e = ground arith

-- The origin that an actor's acceptance has.
abbrev pub origin_of : Actor → AcceptanceOrigin
origin_of Actor.student = AcceptanceOrigin.student
origin_of Actor.system = AcceptanceOrigin.deadline
origin_of Actor.operator = AcceptanceOrigin.operator

raiser : ChargeEvent → Actor
raiser deadline_elapsed = Actor.system
raiser operator_uphold = Actor.operator
raiser operator_dismiss = Actor.operator
raiser _ = Actor.student

-- The event of an accepted transition has an actor, and the transition carries an acceptance origin
-- exactly when it ends in `accepted`: the origin is then that of the actor.
pub acceptance_origin_lem :
    (s : ChargeStatus) (e : ChargeEvent) (t : ChargeStatus) (o : Option AcceptanceOrigin)
    → transition s e ≡ transition_accepted s e t o
    → (a : Actor) × (actor_for e ≡ some a)
      × (o ≡ (if status_eq t accepted then some (origin_of a) else none))
unfolding transition actor_for raiser
acceptance_origin_lem s e t o h = (raiser e, ground arith, ground arith)

-- How many further transitions a status allows.
abbrev pub rank : ChargeStatus → ℕ
rank outstanding = 3
rank contested = 2
rank accepted = 1
rank resolved = 0
rank paid = 0

-- A sequence of accepted transitions, with its number of steps.
pub data PathOf : ChargeStatus → ℕ → ChargeStatus → Type 0 where
  here : {s : ChargeStatus} → PathOf s 0 s
  step :
      {s t u : ChargeStatus} {n : ℕ} (e : ChargeEvent) (o : Option AcceptanceOrigin)
      → transition s e ≡ transition_accepted s e t o
      → PathOf t n u
      → PathOf s (suc n) u

rank_falls :
    (s : ChargeStatus) (e : ChargeEvent) (t : ChargeStatus) (o : Option AcceptanceOrigin)
    → transition s e ≡ transition_accepted s e t o
    → rank t < rank s
unfolding transition
rank_falls s e t o h = ground arith

-- Every sequence of accepted transitions is finite: its steps and the rank of the status that it ends
-- in are together at most the rank of the status that it starts from, which is three at most.
pub lifecycle_terminates : {s t : ChargeStatus} {n : ℕ} → PathOf s n t → n + rank t ≤ rank s
lifecycle_terminates here = omega arith
lifecycle_terminates (step {s = s} {t = t} e o h p) =
    omega (arith, rank_falls s e t o h, lifecycle_terminates p)

-- A charge shows on the Open tab exactly when it is not terminal, on the History tab exactly when
-- it is not outstanding, so on at least one of the two.
hub_tabs :
    (s : ChargeStatus)
    → ((appears_in_open s ≡ true) ↔ (is_terminal s ≡ false))
      × ((appears_in_history s ≡ true) ↔ (s ≢ outstanding))
unfolding appears_in_open appears_in_history is_terminal
hub_tabs s = (ground arith, ground arith)

abbrev pub status_index : ChargeStatus → ℕ
status_index outstanding = 0
status_index accepted = 1
status_index contested = 2
status_index resolved = 3
status_index paid = 4

abbrev pub event_index : ChargeEvent → ℕ
event_index accept = 0
event_index contest = 1
event_index pay = 2
event_index deadline_elapsed = 3
event_index operator_uphold = 4
event_index operator_dismiss = 5

-- The exported table has thirty rows, one for each pair, in order: row `6 * i + j` holds the
-- outcome of the status number `i` and the event number `j`, and the actor of that event.
state_vectors_complete :
    (s : ChargeStatus) (e : ChargeEvent)
    → (length state_vectors ≡ 30)
      × (get_elem? state_vectors (6 * status_index s + event_index e)
          ≡ some (vector_of (transition s e) (actor_for e)))
unfolding state_vectors
state_vectors_complete outstanding e = (refl, ground arith)
state_vectors_complete s e = (refl, ground arith)

-- A transition is invalid or accepted, and names its own arguments.
pub transition-cases :
    (s : ChargeStatus) (e : ChargeEvent)
    → (transition s e ≡ invalid_transition s e)
      ⊎ ((t : ChargeStatus) × (o : Option AcceptanceOrigin) × (transition s e
            ≡ transition_accepted s e t o))
unfolding transition
transition-cases s e = go (transitions s e) refl
  where
    go :
        (x : Option ChargeStatus)
        → transitions s e ≡ x
        → (transition s e ≡ invalid_transition s e)
          ⊎ ((t : ChargeStatus) × (o : Option AcceptanceOrigin) × (transition s e
                ≡ transition_accepted s e t o))
    go none h = inl (rw (h, transition))
    go (some t) h = inr (
      t,
      (if status_eq t accepted then acceptance_origin_by_event e else none),
      rw (h, transition),
    )
