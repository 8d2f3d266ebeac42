-- ===== src/Db/Store/Backfill.antt =====
-- `_backfill_cost_breakdowns` of app/db/store.py, which the loader runs on an older state. A charge
-- without a breakdown, and one whose breakdown is empty, both have the empty list here.
use kxinspect_backend.Base.{
  ◌≡◌, ◌⊎◌, refl, ◌∙◌, String, Bool, true, false, ◌&&◌, Option, none, some, List, [], ◌∷◌, All,
  arith, ◌==◌, Bool-cases, inl, inr, if◌then◌else◌, str_eq,
}
use kxinspect_backend.Domain.CostBreakdown.{
  CostBreakdownItem, default_cost_breakdown, breakdown_total, default_cost_breakdown-sum,
}
use kxinspect_backend.Db.Entities.{Charge}

abbrev pub is_filled : List CostBreakdownItem → Bool
is_filled [] = false
is_filled (_ ∷ _) = true

-- `seed_by_id.get(charge_id)`: of two rows with one id the later is kept.
unfoldable pub seed_by_id : List Charge → String → Option Charge
seed_by_id [] charge_id = none
seed_by_id (row ∷ rows) charge_id = elim (seed_by_id rows charge_id) [
  | some found ↦ some found
  | none ↦ if str_eq row.id charge_id then some row else none
]

abbrev pub with_breakdown : Charge → List CostBreakdownItem → Charge
with_breakdown c items = record c { facts = record c.facts { cost_breakdown = items } }

-- The breakdown of the seed where amount and currency are the same, and the default split otherwise.
abbrev pub breakdown_from : Charge → Option Charge → List CostBreakdownItem
breakdown_from c none = default_cost_breakdown c.amount_minor
breakdown_from c (some seed) =
    if seed.amount_minor == c.amount_minor
      && str_eq seed.currency c.currency
      && is_filled seed.cost_breakdown
    then seed.cost_breakdown
    else default_cost_breakdown c.amount_minor

-- The loop: the charges afterwards, and whether one has changed.
unfoldable pub backfill_cost_breakdowns : List Charge → List Charge → List Charge × Bool
backfill_cost_breakdowns seed [] = ([], false)
backfill_cost_breakdowns seed (c ∷ cs) =
    let rest = backfill_cost_breakdowns seed cs in
    if is_filled c.cost_breakdown
    then (c ∷ rest.0, rest.1)
    else (with_breakdown c (breakdown_from c (seed_by_id seed c.id)) ∷ rest.0, true)

-- The breakdown adds up to the amount.
pub record IsItemised (c : Charge) : Type 0 where
  pub filled : is_filled c.cost_breakdown ≡ true
  pub adds_up : breakdown_total c.cost_breakdown ≡ c.amount_minor

seed_by_id-IsItemised :
    (seed : List Charge) (charge_id : String) (found : Charge)
    → All IsItemised seed
    → seed_by_id seed charge_id ≡ some found
    → IsItemised found
unfolding seed_by_id
seed_by_id-IsItemised [] charge_id found h e = absurd (cc)
seed_by_id-IsItemised (row ∷ rows) charge_id found h e =
    go (seed_by_id rows charge_id) refl e (seed_by_id-IsItemised rows charge_id found h.1)
  where
    go :
        (x : Option Charge)
        → seed_by_id rows charge_id ≡ x
        → elim x [ some y ↦ some y | none ↦ if str_eq row.id charge_id then some row else none ]
          ≡ some found
        → (seed_by_id rows charge_id ≡ some found → IsItemised found)
        → IsItemised found
    go (some y) p q later = later (p ∙ q)
    go none p q later = elim (Bool-cases (str_eq row.id charge_id)) [
      | inl b ↦ let k = rw b at q in let same : row ≡ found = cc in rw same at h.0
      | inr b ↦ let k = rw b at q in absurd (cc)
    ]

-- Empty, or adding up to the amount.
abbrev pub IsSound : Charge → Type 0
IsSound c =
    (is_filled c.cost_breakdown ≡ false) ⊎ (breakdown_total c.cost_breakdown ≡ c.amount_minor)

default-IsItemised :
    (c : Charge) → IsItemised (with_breakdown c (default_cost_breakdown c.amount_minor))
default-IsItemised c = record {
  filled = unfold default_cost_breakdown in refl;
  adds_up = default_cost_breakdown-sum c.amount_minor;
}

breakdown_from-IsItemised :
    (c : Charge) (found : Option Charge)
    → ((seed : Charge) → found ≡ some seed → IsItemised seed)
    → IsItemised (with_breakdown c (breakdown_from c found))
breakdown_from-IsItemised c none h = default-IsItemised c
breakdown_from-IsItemised c (some seed) h =
    elim (Bool-cases (
      seed.amount_minor == c.amount_minor
      && str_eq seed.currency c.currency
      && is_filled seed.cost_breakdown)) [
        | inr e ↦ rw e (default-IsItemised c)
        | inl e ↦
            let s = h seed refl in
            let same : seed.amount_minor ≡ c.amount_minor = ground arith in
            rw e (record { filled = s.filled; adds_up = s.adds_up ∙ same })
      ]

-- With a seed whose breakdowns are there and add up, and charges whose breakdowns are empty or add
-- up: afterwards every charge has a breakdown that adds up to its amount, and a second pass finds
-- nothing to change.
pub backfill_cost_breakdowns_lem :
    (seed cs : List Charge)
    → All IsItemised seed
    → All IsSound cs
    → let filled = backfill_cost_breakdowns seed cs in
      All IsItemised filled.0 × (backfill_cost_breakdowns seed filled.0 ≡ (filled.0, false))
unfolding backfill_cost_breakdowns
backfill_cost_breakdowns_lem seed [] h k = (tt, refl)
backfill_cost_breakdowns_lem seed (c ∷ cs) h k =
    let (each, again) = backfill_cost_breakdowns_lem seed cs h k.1 in
    elim (Bool-cases (is_filled c.cost_breakdown)) [
      | inl e ↦
          let adds : breakdown_total c.cost_breakdown ≡ c.amount_minor = elim k.0 [
            | inl z ↦ absurd (cc)
            | inr z ↦ z
          ] in
          rw e ((record { filled = e; adds_up = adds }, each), rw (e, again) refl)
      | inr e ↦
          let new =
            breakdown_from-IsItemised c (seed_by_id seed c.id)
              (λ found q. seed_by_id-IsItemised seed c.id found h q) in
          rw e ((new, each), rw (new.filled, again) refl)
    ]
