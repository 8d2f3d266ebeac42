-- ===== src/Core/Settings.antt =====
-- `Settings` of app/core/config.py: the constraints on its fields and its validators. The defaults and
-- the environment are not modelled; a float is given by whether it is positive.
use kxinspect_backend.Base.{
  ℕ, ◌≤◌, ◌≡◌, ◌≢◌, ◌⊎◌, refl, Bool, true, false, ◌&&◌, not, Option, none, some, List, [], ◌∷◌,
  any_of, filter_by, leb, ◌==◌, map, arith, inl, inr,
}
use kxinspect_backend.Core.Errors.{Result, ok, ◌>>◌, require, require-then}
use kxinspect_backend.Db.Text.{Text, is_present, split_on, text_eq, strip}

-- The fields that are tested. `demo_now` says whether `parse_instant` takes the text.
pub record Settings : Type 0 where
  pub port : ℕ
  pub workers : ℕ
  pub enable_dev_routes : Bool
  pub dev_token : Text
  pub cors_origins : List Text
  pub grace_period_days : ℕ
  pub demo_now : Option Bool
  pub heartbeat_is_positive : Bool
  pub sse_queue_capacity : ℕ

-- `_split_origins` of a text.
unfoldable pub split_origins : Text → List Text
split_origins value = map strip (filter_by (λ part. is_present (strip part)) (split_on b',' value))

abbrev pub wildcard : Text
wildcard = b'*' ∷ []

abbrev pub is_readable : Option Bool → Bool
is_readable none = true
is_readable (some takes) = takes

-- The constraints of the fields, the two validators of fields, and `_validate_combination`.
unfoldable pub validate : Settings → Result Settings
validate s = do
  require (leb 1 s.port && leb s.port 65535)
  require (leb 1 s.workers)
  require (leb s.grace_period_days 3650)
  require s.heartbeat_is_positive
  require (leb 1 s.sse_queue_capacity)
  require (not (any_of (text_eq wildcard) s.cors_origins))
  require (is_readable s.demo_now)
  require (s.workers == 1)
  require (not (s.enable_dev_routes && not (is_present s.dev_token)))
  ok s

-- What every part of the program may rely on.
pub record IsSafe (s : Settings) : Type 0 where
  pub one_worker : s.workers ≡ 1
  pub port_range : (1 ≤ s.port) × (s.port ≤ 65535)
  pub grace_range : s.grace_period_days ≤ 3650
  pub queue_range : 1 ≤ s.sse_queue_capacity
  pub no_wildcard : any_of (text_eq wildcard) s.cors_origins ≡ false
  pub token_set : (s.enable_dev_routes ≡ false) ⊎ (s.dev_token ≢ [])

-- Settings that are accepted are the ones that were given, and they have one worker, a port, a grace
-- period and a queue within their ranges, no wildcard among the origins, and a token that is not
-- empty where the developer routes are enabled.
validate-IsSafe : (s t : Settings) → validate s ≡ ok t → (s ≡ t) × IsSafe t
unfolding validate
validate-IsSafe s t h =
    let (port, h1) = require-then (leb 1 s.port && leb s.port 65535) _ t h in
    let (_, h2) = require-then (leb 1 s.workers) _ t h1 in
    let (grace, h3) = require-then (leb s.grace_period_days 3650) _ t h2 in
    let (_, h4) = require-then s.heartbeat_is_positive _ t h3 in
    let (queue, h5) = require-then (leb 1 s.sse_queue_capacity) _ t h4 in
    let (origins, h6) = require-then (not (any_of (text_eq wildcard) s.cors_origins)) _ t h5 in
    let (_, h7) = require-then (is_readable s.demo_now) _ t h6 in
    let (one, h8) = require-then (s.workers == 1) _ t h7 in
    let (token, h9) =
      require-then (not (s.enable_dev_routes && not (is_present s.dev_token))) (ok s) t h8 in
    let same : s ≡ t = cc in
    (
      same,
      rw (← same) (record {
        one_worker = ground arith;
        port_range = (ground arith, ground arith);
        grace_range = ground arith;
        queue_range = ground arith;
        no_wildcard = ground arith;
        token_set = token_or s.enable_dev_routes s.dev_token token;
      }),
    )
  where
    token_or :
        (enabled : Bool) (token : Text)
        → not (enabled && not (is_present token)) ≡ true
        → (enabled ≡ false) ⊎ (token ≢ [])
    token_or false token h = inl refl
    token_or true [] h = absurd (cc)
    token_or true (c ∷ s) h = inr (λ e. cc)
