-- ===== src/Db/Store/Lookup.antt =====
-- Lookups of the store: the ledger as a dictionary, and entities by their id.
use kxinspect_backend.Base.{
  ℕ, zero, suc, ◌≡◌, ◌≢◌, refl, String, some, List, [], ◌∷◌, map, get_elem?, if◌then◌else◌, str_eq,
  eq_iff, eq_refl, arith,
}
use kxinspect_backend.Db.Models.{IdempotencyRecord}
use kxinspect_backend.Db.Store.{ledger_get, ledger_set, find_entity}

-- The ledger is a dictionary: what was recorded under a key is found there, and no other key's
-- record changes.
ledger_get-ledger_set :
    (k j : String) (r : IdempotencyRecord) (l : List (String × IdempotencyRecord))
    → ledger_get j (ledger_set k r l) ≡ (if str_eq k j then some r else ledger_get j l)
unfolding ledger_get ledger_set
ledger_get-ledger_set k j r [] = refl
ledger_get-ledger_set k j r ((i, q) ∷ l) =
    ground (arith, eq_iff k j, eq_iff i k, eq_iff i j, ledger_get-ledger_set k j r l)

pub ledger_get-ledger_set_self :
    (k : String) (r : IdempotencyRecord) (l : List (String × IdempotencyRecord))
    → ledger_get k (ledger_set k r l) ≡ some r
ledger_get-ledger_set_self k r l = rw (ledger_get-ledger_set k k r l, eq_refl k)

pub ledger_get-ledger_set_ne :
    (k j : String) (r : IdempotencyRecord) (l : List (String × IdempotencyRecord))
    → k ≢ j
    → ledger_get j (ledger_set k r l) ≡ ledger_get j l
ledger_get-ledger_set_ne k j r l h = ground (arith, ledger_get-ledger_set k j r l, eq_iff k j)

module _ {A : Type 0} (id_of : A → String) (entity_id : String) where
  -- The answer of a lookup stands at its position, and has the id.
  pub find_entity_lem :
      (xs : List A) (i : ℕ) (x : A)
      → find_entity id_of entity_id xs ≡ some (i, x)
      → (get_elem? xs i ≡ some x) × (id_of x ≡ entity_id)
  unfolding find_entity
  find_entity_lem [] i x h = ground arith
  find_entity_lem (y ∷ ys) zero x h = ground (arith, eq_iff (id_of y) entity_id)
  find_entity_lem (y ∷ ys) (suc i) x h =
      ground (arith, eq_iff (id_of y) entity_id, find_entity_lem ys i x)

  -- The position depends on the ids alone.
  pub find_entity_ids :
      (xs ys : List A) (i j : ℕ) (x y : A)
      → map id_of xs ≡ map id_of ys
      → find_entity id_of entity_id xs ≡ some (i, x)
      → find_entity id_of entity_id ys ≡ some (j, y)
      → i ≡ j
  unfolding find_entity
  find_entity_ids [] ys i j x y e h k = ground arith
  find_entity_ids (a ∷ xs) [] i j x y e h k = ground arith
  find_entity_ids (a ∷ xs) (b ∷ ys) zero zero x y e h k = refl
  find_entity_ids (a ∷ xs) (b ∷ ys) zero (suc j) x y e h k = ground arith
  find_entity_ids (a ∷ xs) (b ∷ ys) (suc i) zero x y e h k = ground arith
  find_entity_ids (a ∷ xs) (b ∷ ys) (suc i) (suc j) x y e h k =
      ground (arith, find_entity_ids xs ys i j x y)
