-- ===== src/Services/ChargeService/Validation.antt =====
-- `validate_contest_reason` and `validate_task_payload` of app/services/charge_service.py. The
-- categories of a task are the seven of `TASK_CATEGORIES` by their type, so that test never fails.
use kxinspect_backend.Base.{
  ℕ, ◌≤◌, ◌≡◌, refl, sym, String, ◌||◌, ltb, arith, length, Bool-cases, inl, inr, if◌then◌else◌,
}
use kxinspect_backend.Core.Errors.{api, contest_reason_invalid, Result, ok, raise}
use kxinspect_backend.Core.Graphemes.{grapheme_length}
use kxinspect_backend.Core.Graphemes.Clusters.{grapheme_clusters-Splits}
use kxinspect_backend.Db.Text.{Text, strip}

abbrev pub reason_min : ℕ
reason_min = 10

abbrev pub reason_max : ℕ
reason_max = 2000

abbrev pub notes_min : ℕ
notes_min = 10

abbrev pub notes_max : ℕ
notes_max = 1000

module _ (category : ℕ → String) where
  abbrev pub graphemes : Text → ℕ
  graphemes text = grapheme_length category text

  unfoldable pub validate_contest_reason : Text → Result Text
  validate_contest_reason reason =
      let trimmed = strip reason in
      let count = graphemes trimmed in
      if ltb count reason_min || ltb reason_max count
      then raise (api (contest_reason_invalid count))
      else ok trimmed

  unfoldable pub validate_task_payload : Text → Result (Unit {0})
  validate_task_payload notes =
      let count = graphemes (strip notes) in
      if ltb count notes_min || ltb notes_max count
      then raise (api (contest_reason_invalid count))
      else ok tt

grapheme_length-le :
    (category : ℕ → String) (text : Text) → grapheme_length category text ≤ length text
unfolding grapheme_length
grapheme_length-le category text = (grapheme_clusters-Splits category text).at_most

-- A reason that is accepted is the trimmed text of the request; it has at least ten code points, and
-- from 10 to 2000 user-perceived characters, whatever the categories of its characters are.
pub validate_contest_reason-bounds :
    (category : ℕ → String) (reason r : Text)
    → validate_contest_reason category reason ≡ ok r
    → (r ≡ strip reason)
      × (10 ≤ length r)
      × (10 ≤ grapheme_length category r)
      × (grapheme_length category r ≤ 2000)
unfolding validate_contest_reason
validate_contest_reason-bounds category reason r h =
    elim (Bool-cases (
      ltb (grapheme_length category (strip reason)) 10
      || ltb 2000 (grapheme_length category (strip reason)))) [
        | inl e ↦ let k = rw e at h in absurd (cc)
        | inr e ↦
            let k = rw e at h in
            let same : strip reason ≡ r = cc in
            let le = grapheme_length-le category (strip reason) in
            rw (sym same) (refl, ground arith, ground arith, ground arith)
      ]
