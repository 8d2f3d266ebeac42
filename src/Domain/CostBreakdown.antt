-- ===== src/Domain/CostBreakdown.antt =====
-- app/domain/cost_breakdown.py: the split of a total into five components. The model is for a total
-- that is not negative, which the schemas demand; the subtraction that gives the rounding is then
-- exact, as `default_cost_breakdown-sum` shows: a truncated one would break the sum.
use kxinspect_backend.Base.{
  ℕ, ◌+◌, ◌-◌, ◌*◌, ◌/◌, ◌≤◌, ◌≡◌, String, List, [], ◌∷◌, Option, some, arith,
}

pub record CostBreakdownItem : Type 0 where
  pub label : String
  pub detail : Option String
  pub amount_minor : ℕ

abbrev item : String → String → ℕ → CostBreakdownItem
item label detail amount = record { label = label; detail = some detail; amount_minor = amount }

abbrev tax_rate : ℕ
tax_rate = 20

unfoldable pub default_cost_breakdown : ℕ → List CostBreakdownItem
default_cost_breakdown amount_minor =
    let pre_tax : ℕ = amount_minor * 100 / (100 + tax_rate) in
    let materials : ℕ = pre_tax * 46 / 100 in
    let labour : ℕ = pre_tax * 34 / 100 in
    let service : ℕ = pre_tax * 20 / 100 in
    let tax : ℕ = (pre_tax * tax_rate + 50) / 100 in
    let rounding : ℕ = amount_minor - materials - labour - service - tax in
    item "Materials and parts" "Illustrative replacement items and consumables" materials
    ∷ item "Technician labour" "Illustrative inspection, repair and fitting time" labour
    ∷ item "Service and handling" "Illustrative call-out and administration" service
    ∷ item "Service tax (demo)" "Illustrative 20% tax allocation" tax
    ∷ item "Rounding adjustment" "Adjustment so itemised amounts equal the displayed total" rounding
    ∷ []

-- `sum(item.amountMinor for item in self.costBreakdown)`
unfoldable pub breakdown_total : List CostBreakdownItem → ℕ
breakdown_total [] = 0
breakdown_total (x ∷ xs) = x.amount_minor + breakdown_total xs

-- No minor unit is lost or invented: the five components add up to the total.
pub default_cost_breakdown-sum :
    (amount : ℕ) → breakdown_total (default_cost_breakdown amount) ≡ amount
unfolding default_cost_breakdown breakdown_total
default_cost_breakdown-sum amount = omega arith

-- The amount of the last component, the rounding.
abbrev pub rounding_of : List CostBreakdownItem → ℕ
rounding_of (_ ∷ _ ∷ _ ∷ _ ∷ r ∷ []) = r.amount_minor
rounding_of _ = 0

-- The rounding adjustment stays below four minor units, whatever the total.
rounding_bound : (amount : ℕ) → rounding_of (default_cost_breakdown amount) ≤ 3
unfolding default_cost_breakdown
rounding_bound amount = omega arith
