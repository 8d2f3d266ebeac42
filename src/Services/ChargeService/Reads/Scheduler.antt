-- ===== src/Services/ChargeService/Reads/Scheduler.antt =====
-- The delay that the deadline scheduler waits.
use kxinspect_backend.Base.{
  ℕ, ◌+◌, ◌-◌, ◌<◌, ◌≡◌, refl, Bool, true, ◌&&◌, not, Option, none, some, List, [], ◌∷◌, map,
  filter_by, All, arith, Bool-cases, Option-cases, inl, inr, ltb, any_of, lt→ltb, ◌⊎◌,
}
use kxinspect_backend.Core.Clock.{DateTime, parse_instant}
use kxinspect_backend.Domain.ChargeState.{outstanding, status_eq}
use kxinspect_backend.Domain.Deadline.{is_expired}
use kxinspect_backend.Db.Entities.{Charge}
use kxinspect_backend.Db.Models.{StoreSnapshot}
use kxinspect_backend.Services.ChargeService.Reconcile.{is_elapsed}
use kxinspect_backend.Services.ChargeService.Reads.{least, candidates, next_deadline_micros}

-- The delays that `next_deadline_seconds` chooses from.
abbrev pub delays : DateTime → List Charge → List ℕ
delays now cs =
    map (λ deadline. deadline - now) (filter_by (λ deadline. ltb now deadline) (candidates cs))

-- `t` comes before an optional delay; an absent delay never comes.
abbrev pub before : ℕ → Option ℕ → Bool
before t none = true
before t (some d) = ltb t d

before-least :
    (t x : ℕ) (xs : List ℕ)
    → before t (least (x ∷ xs)) ≡ true
    → (t < x) × (before t (least xs) ≡ true)
before-least t x xs h = elim (Option-cases (least xs)) [
  | inl e ↦ let k = rw e at h in rw e (ground arith, refl)
  | inr (y, e) ↦ let k = rw e at h in rw e (ground arith, ground arith)
]

least-cases : (x d : ℕ) (xs : List ℕ) → least (x ∷ xs) ≡ some d → (x ≡ d) ⊎ (least xs ≡ some d)
least-cases x d xs h = elim (Option-cases (least xs)) [
  | inl e ↦ let k = rw e at h in inl (ground arith)
  | inr (y, e) ↦ let k = rw e at h in rw e (ground arith)
]

module _ (now : DateTime) where
  not_yet :
      (t : ℕ) (cs : List Charge)
      → before t (least (delays now cs)) ≡ true
      → All (λ c. is_elapsed (now + t) c ≡ is_elapsed now c) cs
  unfolding is_elapsed is_expired
  not_yet t [] h = tt
  not_yet t (c ∷ cs) h = elim (Bool-cases (status_eq c.status outstanding)) [
    | inr e ↦ let k = rw e at h in (rw e refl, not_yet t cs k)
    | inl e ↦
        let k = rw e at h in
        elim (Bool-cases (ltb now (parse_instant c.deadline_at))) [
          | inl f ↦
              let (lt, rest) = before-least t _ (delays now cs) (rw f at k) in
              (rw e (ground arith), not_yet t cs rest)
          | inr f ↦ (rw e (ground arith), not_yet t cs (rw f at k))
        ]
  ]

  abbrev pub becomes_elapsed : ℕ → Charge → Bool
  becomes_elapsed t c = is_elapsed (now + t) c && not (is_elapsed now c)

  pub then_due :
      (d : ℕ) (cs : List Charge)
      → least (delays now cs) ≡ some d
      → any_of (becomes_elapsed d) cs ≡ true
  unfolding is_elapsed is_expired
  then_due d [] h = absurd (cc)
  then_due d (c ∷ cs) h = elim (Bool-cases (status_eq c.status outstanding)) [
    | inr e ↦ let k = rw e at h in rw e (then_due d cs k)
    | inl e ↦
        let k = rw e at h in
        elim (Bool-cases (ltb now (parse_instant c.deadline_at))) [
          | inl f ↦ elim (least-cases _ d (delays now cs) (rw f at k)) [
            | inl p ↦ rw e (ground arith)
            | inr q ↦ let rest = then_due d cs q in ground arith
          ]
          | inr f ↦ let rest = then_due d cs (rw f at k) in ground arith
        ]
  ]

-- If the scheduler is told to wait `d`, then no charge becomes elapsed at any instant before, and at
-- least one outstanding charge that is not elapsed now is elapsed when the wait is over.
pub next_deadline_lem :
    (now : DateTime) (s : StoreSnapshot) (d t : ℕ)
    → next_deadline_micros now s ≡ some d
    → t < d
    → All (λ c. is_elapsed (now + t) c ≡ is_elapsed now c) s.entities.charges
      × (any_of (becomes_elapsed now d) s.entities.charges ≡ true)
unfolding next_deadline_micros
next_deadline_lem now s d t h lt =
    (not_yet now t s.entities.charges (rw h (lt→ltb t d lt)), then_due now d s.entities.charges h)

-- If the scheduler is told that there is no deadline, no charge ever becomes elapsed.
next_deadline_none :
    (now : DateTime) (s : StoreSnapshot) (t : ℕ)
    → next_deadline_micros now s ≡ none
    → All (λ c. is_elapsed (now + t) c ≡ is_elapsed now c) s.entities.charges
unfolding next_deadline_micros
next_deadline_none now s t h = not_yet now t s.entities.charges (rw h refl)
