-- ===== src/Db/Barrier.antt =====
-- `OperationBarrier` of app/db/store.py: the lease that operations share and a reset takes alone.
-- The condition's lock makes each entry and exit one step; a task that has to wait takes no step.
use kxinspect_backend.Base.{
  ℕ, ◌+◌, ◌-◌, ◌≤◌, ◌<◌, ◌≡◌, ◌⊎◌, refl, inl, inr, Bool, true, false, ◌||◌, Option, none, some,
  arith, ltb, if◌then◌else◌,
}

pub record OperationBarrier : Type 0 where
  pub shared_count : ℕ
  pub is_exclusive : Bool

-- `shared`: `none` while the loop waits.
unfoldable pub enter_shared : OperationBarrier → Option OperationBarrier
enter_shared b =
    if b.is_exclusive then none else some (record b { shared_count = b.shared_count + 1 })

-- The count is above zero there, as each exit follows an entry.
unfoldable pub leave_shared : OperationBarrier → OperationBarrier
leave_shared b = record b { shared_count = b.shared_count - 1 }

unfoldable pub enter_exclusive : OperationBarrier → Option OperationBarrier
enter_exclusive b =
    if b.is_exclusive || ltb 0 b.shared_count then none else some (record b { is_exclusive = true })

unfoldable pub leave_exclusive : OperationBarrier → OperationBarrier
leave_exclusive b = record b { is_exclusive = false }

-- The barrier, and the number of tasks that are inside of each kind of block.
pub record Leases : Type 0 where
  pub barrier : OperationBarrier
  pub sharing : ℕ
  pub alone : ℕ

abbrev pub no_leases : Leases
no_leases = record {
  barrier = record { shared_count = 0; is_exclusive = false };
  sharing = 0;
  alone = 0;
}

pub data LeaseStep : Leases → Leases → Type 0 where
  shares :
      (x : Leases) (b : OperationBarrier)
      → enter_shared x.barrier ≡ some b
      → LeaseStep x (record x { barrier = b; sharing = x.sharing + 1 })
  unshares :
      (x : Leases)
      → 0 < x.sharing
      → LeaseStep x (record x { barrier = leave_shared x.barrier; sharing = x.sharing - 1 })
  takes :
      (x : Leases) (b : OperationBarrier)
      → enter_exclusive x.barrier ≡ some b
      → LeaseStep x (record x { barrier = b; alone = x.alone + 1 })
  frees :
      (x : Leases)
      → 0 < x.alone
      → LeaseStep x (record x { barrier = leave_exclusive x.barrier; alone = x.alone - 1 })

pub data LeaseSteps (x : Leases) : Leases → Type 0 where
  at_rest : LeaseSteps x x
  after : {y z : Leases} → LeaseSteps x y → LeaseStep y z → LeaseSteps x z

abbrev pub holders_of : Bool → ℕ
holders_of true = 1
holders_of false = 0

-- The barrier counts its holders, and the two kinds exclude each other.
record IsCounted (x : Leases) : Type 0 where
  shared_ok : x.barrier.shared_count ≡ x.sharing
  alone_ok : x.alone ≡ holders_of x.barrier.is_exclusive
  apart : (x.alone ≡ 0) ⊎ (x.sharing ≡ 0)

IsCounted-step : {x y : Leases} → LeaseStep x y → IsCounted x → IsCounted y
unfolding enter_shared leave_shared enter_exclusive leave_exclusive
IsCounted-step (shares x b e) h =
    let s = h.shared_ok in
    let a = h.alone_ok in
    record { shared_ok = ground arith; alone_ok = ground arith; apart = inl (ground arith) }
IsCounted-step (unshares x lt) h =
    let s = h.shared_ok in
    let a = h.alone_ok in
    let p = h.apart in record { shared_ok = ground arith; alone_ok = a; apart = ground arith }
IsCounted-step (takes x b e) h =
    let s = h.shared_ok in
    let a = h.alone_ok in
    record { shared_ok = ground arith; alone_ok = ground arith; apart = inr (ground arith) }
IsCounted-step (frees x lt) h =
    let s = h.shared_ok in
    let a = h.alone_ok in
    let p = h.apart in record { shared_ok = s; alone_ok = ground arith; apart = inl (ground arith) }

IsCounted-steps : {x : Leases} → LeaseSteps no_leases x → IsCounted x
IsCounted-steps at_rest = record { shared_ok = refl; alone_ok = refl; apart = inl refl }
IsCounted-steps (after r s) = IsCounted-step s (IsCounted-steps r)

-- However entries and exits interleave: at most one task holds the exclusive lease, and none while
-- it is shared; and when no task holds a lease, neither kind of entry has to wait.
pub LeaseSteps-exclusion :
    {x : Leases}
    → LeaseSteps no_leases x
    → (x.alone ≤ 1)
      × ((x.alone ≡ 0) ⊎ (x.sharing ≡ 0))
      × ((0 < x.sharing + x.alone)
          ⊎ ((enter_shared x.barrier ≡ some (record x.barrier { shared_count = 1 }))
              × (enter_exclusive x.barrier ≡ some (record x.barrier { is_exclusive = true }))))
unfolding enter_shared enter_exclusive
LeaseSteps-exclusion {x = x} r =
    let h = IsCounted-steps r in
    let s = h.shared_ok in let a = h.alone_ok in (ground arith, h.apart, ground arith)
