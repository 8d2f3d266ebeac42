-- ===== src/Core/Chaos.antt =====
-- app/core/chaos.py: injected latency and faults.
use kxinspect_backend.Base.{
  ℕ, zero, suc, ◌≡◌, refl, ap, String, Bool, true, false, not, Option, none, some, List, [], ◌∷◌,
  filter_by, any_of, take, ◌∙◌, Bool-cases, inl, inr, if◌then◌else◌, str_eq,
}
use kxinspect_backend.Core.Errors.{api, chaos_injected, Result, ok, raise}

abbrev pub default_excluded_paths : List String
default_excluded_paths = "/api/v1/health" ∷ []

pub record ChaosConfig : Type 0 where
  pub latency_ms : ℕ
  pub fail_next : ℕ
  pub error_status : ℕ
  pub error_code : String
  pub excluded_paths : List String

-- `ChaosConfig()`, which `clear` goes back to.
abbrev pub no_chaos : ChaosConfig
no_chaos = record {
  latency_ms = 0;
  fail_next = 0;
  error_status = 503;
  error_code = "chaos.injected";
  excluded_paths = default_excluded_paths;
}

unfoldable pub configure : ℕ → ℕ → ℕ → String → Option (List String) → ChaosConfig
configure latency_ms fail_next error_status error_code excluded = record {
  latency_ms = latency_ms;
  fail_next = fail_next;
  error_status = error_status;
  error_code = error_code;
  excluded_paths = elim excluded [ none ↦ default_excluded_paths | some paths ↦ paths ];
}

abbrev pub is_excluded : ChaosConfig → String → Bool
is_excluded config path = any_of (str_eq path) config.excluded_paths

-- What `apply` does: the sleep in milliseconds, whether it raises, and the configuration after.
pub record Applied : Type 0 where
  pub slept_ms : ℕ
  pub result : Result (Unit {0})
  pub config : ChaosConfig

-- The `if` on the count of faults that are left.
abbrev pub inject : ChaosConfig → String → ℕ → Applied
inject config path zero = record { slept_ms = config.latency_ms; result = ok tt; config = config }
inject config path (suc left) = record {
  slept_ms = config.latency_ms;
  result = raise (api (chaos_injected config.error_code config.error_status path));
  config = record config { fail_next = left };
}

unfoldable pub apply : ChaosConfig → String → Applied
apply config path =
    if is_excluded config path
    then record { slept_ms = 0; result = ok tt; config = config }
    else inject config path config.fail_next

-- The path of a request, before the others that fail, if it fails itself.
abbrev pub note : String → Result (Unit {0}) → List String × ChaosConfig → List String × ChaosConfig
note path (ok _) rest = rest
note path (raise _) rest = (path ∷ rest.0, rest.1)

-- The paths of a sequence of requests that fail, in order, and the configuration afterwards.
unfoldable pub failing : ChaosConfig → List String → List String × ChaosConfig
failing config [] = ([], config)
failing config (path ∷ paths) =
    note path (apply config path).result (failing (apply config path).config paths)

failing-cons :
    (config : ChaosConfig) (path : String) (paths : List String) (a : Applied)
    → apply config path ≡ a
    → failing config (path ∷ paths) ≡ note path a.result (failing a.config paths)
unfolding failing
failing-cons config path paths a e =
    ap (λ (a : Applied). note path a.result (failing a.config paths)) e

apply_excluded :
    (config : ChaosConfig) (path : String)
    → is_excluded config path ≡ true
    → apply config path ≡ record { slept_ms = 0; result = ok tt; config = config }
unfolding apply
apply_excluded config path e = rw e refl

apply_counted :
    (config : ChaosConfig) (path : String) (n : ℕ)
    → is_excluded config path ≡ false
    → config.fail_next ≡ n
    → apply config path ≡ inject config path n
unfolding apply
apply_counted config path n e h = rw (e, h) refl

-- The paths whose faults count.
abbrev pub counted : ChaosConfig → List String → List String
counted config = filter_by (λ path. not (any_of (str_eq path) config.excluded_paths))

-- A configuration that asks for `n` faults makes exactly the first `n` requests fail whose path is
-- not excluded, in their order, and no other.
pub failing_lem :
    (config : ChaosConfig) (paths : List String)
    → (failing config paths).0 ≡ take config.fail_next (counted config paths)
failing_lem config [] = unfold failing in go config.fail_next
  where
    go : (n : ℕ) → [] ≡ take n (counted config [])
    go zero = refl
    go (suc n) = refl
failing_lem config (path ∷ paths) = elim (Bool-cases (is_excluded config path)) [
  | inl e ↦
      rw (failing-cons config path paths _ (apply_excluded config path e), e)
        (failing_lem config paths)
  | inr e ↦ rw e (
      go config.fail_next refl e (failing_lem config paths)
        (λ n. failing_lem (record config { fail_next = n }) paths))
]
  where
    go :
        (n : ℕ)
        → config.fail_next ≡ n
        → is_excluded config path ≡ false
        → (failing config paths).0 ≡ take config.fail_next (counted config paths)
        → ((m : ℕ)
            → (failing (record config { fail_next = m }) paths).0 ≡ take m (counted config paths))
        → (failing config (path ∷ paths)).0 ≡ take n (path ∷ counted config paths)
    go zero h e same fewer =
        rw (failing-cons config path paths _ (apply_counted config path zero e h))
          (same ∙ ap (λ n. take n (counted config paths)) h)
    go (suc n) h e same fewer =
        rw (failing-cons config path paths _ (apply_counted config path (suc n) e h))
          (ap (λ xs. path ∷ xs) (fewer n))
