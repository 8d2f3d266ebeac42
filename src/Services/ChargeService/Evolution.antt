-- ===== src/Services/ChargeService/Evolution.antt =====
-- How the list of charges may change: charges move along the lifecycle, and new ones are appended.
pub mod Stamped
use kxinspect_backend.Base.{
  ℕ, zero, suc, ◌+◌, ◌≤◌, ◌≡◌, refl, sym, ap, ◌∙◌, Bool, true, false, Option, none, some, List, [],
  ◌∷◌, ◌++◌, get_elem?, set, All, All-append, arith, Bool-cases, inl, inr, if◌then◌else◌,
}
use kxinspect_backend.Core.Clock.{DateTime}
use kxinspect_backend.Domain.ChargeState.{
  ChargeStatus, outstanding, accepted, contested, resolved, paid, ChargeEvent, deadline_elapsed,
  Actor, actor_for, AcceptanceOrigin, transition, transition_accepted, status_eq,
}
use kxinspect_backend.Domain.ChargeState.Lifecycle.{PathOf, here, step}
use kxinspect_backend.Domain.CostBreakdown.{breakdown_total}
use kxinspect_backend.Db.Entities.{Charge}
use kxinspect_backend.Services.ChargeService.Reconcile.{
  is_elapsed, accept_elapsed, reconcile_charges,
}
use kxinspect_backend.Services.ChargeService.Commands.{ChargeCommand, next_charge}
use kxinspect_backend.Services.ChargeService.Operator.{decided_charge}

-- One charge after another: the same facts, a path of legal transitions, and a version that has
-- grown by the number of its steps.
pub record Grows (c d : Charge) : Type 0 where
  pub steps : ℕ
  pub path : PathOf c.status steps d.status
  pub version_ok : d.version ≡ c.version + steps
  pub facts_ok : d.facts ≡ c.facts

-- A charge that has been raised and has moved since: its version is one more than the number of
-- its transitions from `outstanding`.
pub record IsTraced (c : Charge) : Type 0 where
  pub moves : ℕ
  pub trace : PathOf outstanding moves c.status
  pub counted : c.version ≡ 1 + moves

pub data Evolves : List Charge → List Charge → Type 0 where
  added : {new : List Charge} → All IsTraced new → Evolves [] new
  kept :
      {c d : Charge} {cs ds : List Charge} → Grows c d → Evolves cs ds → Evolves (c ∷ cs) (d ∷ ds)

path_cast : {s t : ChargeStatus} {m n : ℕ} → m ≡ n → PathOf s m t → PathOf s n t
path_cast e p = rw e at p

path_append : {s t u : ChargeStatus} {m n : ℕ} → PathOf s m t → PathOf t n u → PathOf s (m + n) u
path_append here q = path_cast (omega arith) q
path_append (step e o h p) q = path_cast (omega arith) (step e o h (path_append p q))

abbrev pub Grows_refl : (c : Charge) → Grows c c
Grows_refl c = record { steps = 0; path = here; version_ok = omega arith; facts_ok = refl }

Grows_trans : {a b c : Charge} → Grows a b → Grows b c → Grows a c
Grows_trans g h = record {
  steps = g.steps + h.steps;
  path = path_append g.path h.path;
  version_ok = let p = g.version_ok in let q = h.version_ok in omega arith;
  facts_ok = h.facts_ok ∙ g.facts_ok;
}

-- One accepted transition.
pub Grows_step :
    (c d : Charge) (e : ChargeEvent) (to : ChargeStatus) (o : Option AcceptanceOrigin)
    → transition c.status e ≡ transition_accepted c.status e to o
    → d.status ≡ to
    → d.version ≡ c.version + 1
    → d.facts ≡ c.facts
    → Grows c d
Grows_step c d e to o legal s v f = record {
  steps = 1;
  path = rw s (step e o legal here);
  version_ok = v;
  facts_ok = f;
}

IsTraced-Grows : {c d : Charge} → IsTraced c → Grows c d → IsTraced d
IsTraced-Grows t g = record {
  moves = t.moves + g.steps;
  trace = path_append t.trace g.path;
  counted = let p = g.version_ok in let q = t.counted in omega arith;
}

-- A traced list stays traced.
pub Evolves-IsTraced : {cs ds : List Charge} → Evolves cs ds → All IsTraced cs → All IsTraced ds
Evolves-IsTraced (added new) h = new
Evolves-IsTraced (kept g e) h = (IsTraced-Grows h.0 g, Evolves-IsTraced e h.1)

pub Evolves-trans : {xs ys zs : List Charge} → Evolves xs ys → Evolves ys zs → Evolves xs zs
Evolves-trans (added new) e = added (Evolves-IsTraced e new)
Evolves-trans (kept g e) (kept h f) = kept (Grows_trans g h) (Evolves-trans e f)

pub Evolves-refl : (cs : List Charge) → Evolves cs cs
Evolves-refl [] = added tt
Evolves-refl (c ∷ cs) = kept (Grows_refl c) (Evolves-refl cs)

pub Evolves-append : (cs new : List Charge) → All IsTraced new → Evolves cs (cs ++ new)
Evolves-append [] new h = added h
Evolves-append (c ∷ cs) new h = kept (Grows_refl c) (Evolves-append cs new h)

pub Evolves-set :
    (cs : List Charge) (i : ℕ) (c d : Charge)
    → get_elem? cs i ≡ some c
    → Grows c d
    → Evolves cs (set cs i d)
Evolves-set [] i c d h g = added tt
Evolves-set (x ∷ cs) zero c d h g = kept (let e : x ≡ c = ground arith in rw e g) (Evolves-refl cs)
Evolves-set (x ∷ cs) (suc i) c d h g = kept (Grows_refl x) (Evolves-set cs i c d h g)

accept_elapsed-Grows :
    (now : DateTime) (c : Charge) → is_elapsed now c ≡ true → Grows c (accept_elapsed now c)
unfolding is_elapsed accept_elapsed transition
accept_elapsed-Grows now c h =
    Grows_step c (accept_elapsed now c) deadline_elapsed accepted (some AcceptanceOrigin.deadline)
      (let e : c.status ≡ outstanding = ground arith in rw e refl) refl refl refl

pub reconcile_charges-Evolves :
    (now : DateTime) (cs : List Charge) → Evolves cs (reconcile_charges now cs).0
unfolding reconcile_charges
reconcile_charges-Evolves now [] = added tt
reconcile_charges-Evolves now (c ∷ cs) = elim (Bool-cases (is_elapsed now c)) [
  | inl e ↦ rw e (kept (accept_elapsed-Grows now c e) (reconcile_charges-Evolves now cs))
  | inr e ↦ rw e (kept (Grows_refl c) (reconcile_charges-Evolves now cs))
]
