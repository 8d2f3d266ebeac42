-- ===== src/Domain/ChargeState.antt =====
-- app/domain/charge_state.py: the charge lifecycle, its transition table, the actors and the
-- exported state vectors. A `dict` constant is a function by clauses, a `frozenset` or tuple a test.
pub mod Lifecycle
use kxinspect_backend.Base.{
  ◌≡◌, refl, Bool, true, false, Option, none, some, List, [], ◌∷◌, ◌++◌, map, if◌then◌else◌,
}

pub data ChargeStatus : Type 0 where
  outstanding accepted contested resolved paid : ChargeStatus

pub data ChargeEvent : Type 0 where
  accept contest pay deadline_elapsed operator_uphold operator_dismiss : ChargeEvent

pub data AcceptanceOrigin : Type 0 where
  student deadline operator : AcceptanceOrigin

pub data Actor : Type 0 where
  student system operator : Actor

-- Equality of two members of the status enumeration, `is` and `==`.
abbrev pub status_eq : ChargeStatus → ChargeStatus → Bool
status_eq outstanding outstanding = true
status_eq accepted accepted = true
status_eq contested contested = true
status_eq resolved resolved = true
status_eq paid paid = true
status_eq _ _ = false

-- Equality of two members of the event enumeration.
abbrev pub event_eq : ChargeEvent → ChargeEvent → Bool
event_eq accept accept = true
event_eq contest contest = true
event_eq pay pay = true
event_eq deadline_elapsed deadline_elapsed = true
event_eq operator_uphold operator_uphold = true
event_eq operator_dismiss operator_dismiss = true
event_eq _ _ = false

abbrev pub status_in : ChargeStatus → List ChargeStatus → Bool
status_in s [] = false
status_in s (t ∷ ts) = if status_eq s t then true else status_in s ts

abbrev pub event_in : ChargeEvent → List ChargeEvent → Bool
event_in e [] = false
event_in e (f ∷ fs) = if event_eq e f then true else event_in e fs

abbrev pub terminal_statuses : List ChargeStatus
terminal_statuses = resolved ∷ paid ∷ []

-- The statuses of the Hub's "Open" tab.
abbrev pub open_statuses : List ChargeStatus
open_statuses = outstanding ∷ accepted ∷ contested ∷ []

-- The statuses of the Hub's "History" tab.
abbrev pub history_statuses : List ChargeStatus
history_statuses = accepted ∷ contested ∷ resolved ∷ paid ∷ []

-- `ACTOR_EVENTS`, in the order of the dictionary.
abbrev pub actor_events : List (Actor × List ChargeEvent)
actor_events =
    (Actor.student, accept ∷ contest ∷ pay ∷ [])
    ∷ (Actor.system, deadline_elapsed ∷ [])
    ∷ (Actor.operator, operator_uphold ∷ operator_dismiss ∷ [])
    ∷ []

-- `_ACCEPTANCE_ORIGIN_BY_EVENT.get(event)`
abbrev pub acceptance_origin_by_event : ChargeEvent → Option AcceptanceOrigin
acceptance_origin_by_event accept = some AcceptanceOrigin.student
acceptance_origin_by_event deadline_elapsed = some AcceptanceOrigin.deadline
acceptance_origin_by_event operator_uphold = some AcceptanceOrigin.operator
acceptance_origin_by_event _ = none

-- `_TRANSITIONS.get((status, event))`
abbrev pub transitions : ChargeStatus → ChargeEvent → Option ChargeStatus
transitions outstanding accept = some accepted
transitions outstanding contest = some contested
transitions outstanding deadline_elapsed = some accepted
transitions accepted pay = some paid
transitions contested operator_uphold = some accepted
transitions contested operator_dismiss = some resolved
transitions _ _ = none

pub data TransitionResult : Type 0 where
  transition_accepted :
      (from_status : ChargeStatus) (event : ChargeEvent) (to_status : ChargeStatus)
      (acceptance_origin : Option AcceptanceOrigin)
      → TransitionResult
  invalid_transition : (from_status : ChargeStatus) (event : ChargeEvent) → TransitionResult

unfoldable pub transition : ChargeStatus → ChargeEvent → TransitionResult
transition status event = elim (transitions status event) [
  | none ↦ invalid_transition status event
  | some to_status ↦
      transition_accepted status event to_status
        (if status_eq to_status accepted then acceptance_origin_by_event event else none)
]

-- The loop of `actor_for`; `none` is the assertion at its end.
abbrev pub find_actor : List (Actor × List ChargeEvent) → ChargeEvent → Option Actor
find_actor [] event = none
find_actor ((actor, events) ∷ rest) event =
    if event_in event events then some actor else find_actor rest event

unfoldable pub actor_for : ChargeEvent → Option Actor
actor_for event = find_actor actor_events event

unfoldable pub is_terminal : ChargeStatus → Bool
is_terminal status = status_in status terminal_statuses

unfoldable pub appears_in_open : ChargeStatus → Bool
appears_in_open status = status_in status open_statuses

unfoldable pub appears_in_history : ChargeStatus → Bool
appears_in_history status = status_in status history_statuses

-- The members of the two enumerations, in the order of their declarations.
abbrev pub all_statuses : List ChargeStatus
all_statuses = outstanding ∷ accepted ∷ contested ∷ resolved ∷ paid ∷ []

abbrev pub all_events : List ChargeEvent
all_events = accept ∷ contest ∷ pay ∷ deadline_elapsed ∷ operator_uphold ∷ operator_dismiss ∷ []

-- One row of `state_vectors`: `to` is `none` for the outcome "invalidTransition".
pub record Vector : Type 0 where
  pub from : ChargeStatus
  pub event : ChargeEvent
  pub actor : Option Actor
  pub accepted_outcome : Bool
  pub to : Option ChargeStatus
  pub acceptance_origin : Option AcceptanceOrigin

abbrev pub vector_of : TransitionResult → Option Actor → Vector
vector_of (transition_accepted status event to_status origin) actor = record {
  from = status;
  event = event;
  actor = actor;
  accepted_outcome = true;
  to = some to_status;
  acceptance_origin = origin;
}
vector_of (invalid_transition status event) actor = record {
  from = status;
  event = event;
  actor = actor;
  accepted_outcome = false;
  to = none;
  acceptance_origin = none;
}

abbrev pub vectors_from : List ChargeStatus → List Vector
vectors_from [] = []
vectors_from (status ∷ rest) =
    map (λ event. vector_of (transition status event) (actor_for event)) all_events
    ++ vectors_from rest

unfoldable pub state_vectors : List Vector
unfolding transition actor_for
state_vectors = vectors_from all_statuses
