-- ===== src/Db/Text/RoundTrip.antt =====
-- Printing a number and reading it back.
use mathlib.Core.List.{reverse, reverse-cons, reverse-reverse}
use kxinspect_backend.Base.{
  ℕ, zero, suc, ◌+◌, ◌-◌, ◌*◌, ◌/◌, ◌%◌, ◌<◌, ◌≡◌, refl, Bool, true, false, some, [], ◌∷◌, ◌++◌,
  ltb, ◌==◌, ==_refl, All, All-append, arith, Bool-cases, inl, inr, ◌∙◌,
}
use kxinspect_backend.Base.Int.{pos}
use kxinspect_backend.Db.Text.{
  Text, text_eq, positive, is_digit, is_space, lstrip, strip, scan, int_of, render, str,
  split_colon, signed,
}

abbrev pub IsDigits : Text → Type 0
IsDigits = All (λ c. is_digit c ≡ true)

pub render-IsDigits : (fuel n : ℕ) → IsDigits (render fuel n)
unfolding render
render-IsDigits zero n = tt
render-IsDigits (suc fuel) n = elim (Bool-cases (ltb n 10)) [
  | inl h ↦ rw (h, render) (ground arith, tt)
  | inr h ↦
      rw (h, render)
        (All-append _ (render fuel (n / 10)) _ (render-IsDigits fuel (n / 10)) (ground arith, tt))
]

scan-snoc :
    (b : Bool) (acc v c : ℕ) (s : Text)
    → scan b acc s ≡ some v
    → is_digit c ≡ true
    → scan b acc (s ++ (c ∷ [])) ≡ some (v * 10 + (c - b'0'))
unfolding scan
scan-snoc true acc v c [] h d = ground arith
scan-snoc false acc v c [] h d = cc
scan-snoc b acc v c (x ∷ s) h d =
    ground (arith, scan-snoc true (acc * 10 + (x - b'0')) v c s, scan-snoc false acc v c s)

scan-render : (fuel n : ℕ) → n < fuel → scan false 0 (render fuel n) ≡ some n
unfolding render
scan-render zero n h = elim h [ ]
scan-render (suc fuel) n h = elim (Bool-cases (ltb n 10)) [
  | inl e ↦ rw (e, render) (unfold scan in ground arith)
  | inr e ↦
      rw (e, render)
        (scan-snoc false 0 (n / 10) (b'0' + n % 10) (render fuel (n / 10))
            (scan-render fuel (n / 10) (ground arith)) (ground arith)
          ∙ ground arith)
]

digit-not-space : (c : ℕ) → is_digit c ≡ true → is_space c ≡ false
digit-not-space c h = ground arith

lstrip-digits : (s : Text) → IsDigits s → lstrip s ≡ s
unfolding lstrip
lstrip-digits [] h = refl
lstrip-digits (c ∷ s) h = rw (digit-not-space c h.0)

reverse-IsDigits : (s : Text) → IsDigits s → IsDigits (reverse s)
reverse-IsDigits [] h = tt
reverse-IsDigits (c ∷ s) h =
    rw (reverse-cons c s) (All-append _ (reverse s) _ (reverse-IsDigits s h.1) (h.0, tt))

strip-digits : (s : Text) → IsDigits s → strip s ≡ s
unfolding strip
strip-digits s h =
    rw (lstrip-digits s h, lstrip-digits (reverse s) (reverse-IsDigits s h), reverse-reverse)

signed-digits : (s : Text) → IsDigits s → signed s ≡ positive (scan false 0 s)
signed-digits [] h = unfold scan in refl
signed-digits (c ∷ s) h = ground arith

-- `int(str(n))` is `n`.
pub int_of-str : (n : ℕ) → int_of (str n) ≡ some (pos n)
unfolding int_of str
int_of-str n =
    let d = render-IsDigits (suc n) n in
    rw (
      strip-digits (render (suc n) n) d,
      signed-digits (render (suc n) n) d,
      scan-render (suc n) n (omega arith),
    )

-- A text without a colon.
abbrev pub NoColon : Text → Type 0
NoColon = All (λ c. (c == b':') ≡ false)

pub IsDigits-NoColon : (s : Text) → IsDigits s → NoColon s
IsDigits-NoColon [] h = tt
IsDigits-NoColon (c ∷ s) h = (ground arith, IsDigits-NoColon s h.1)

pub split_colon-append :
    (s t : Text) → NoColon s → split_colon (s ++ (b':' ∷ t)) ≡ s ∷ split_colon t
unfolding split_colon
split_colon-append [] t h = refl
split_colon-append (c ∷ s) t h = rw (h.0, split_colon-append s t h.1)

pub split_colon-last : (s : Text) → NoColon s → split_colon s ≡ s ∷ []
unfolding split_colon
split_colon-last [] h = refl
split_colon-last (c ∷ s) h = rw (h.0, split_colon-last s h.1)

pub text_eq_refl : (s : Text) → text_eq s s ≡ true
text_eq_refl [] = refl
text_eq_refl (c ∷ s) = rw (==_refl c, text_eq_refl s)

pub text_eq_sound : (s t : Text) → text_eq s t ≡ true → s ≡ t
text_eq_sound [] [] h = refl
text_eq_sound [] (d ∷ t) h = cc
text_eq_sound (c ∷ s) [] h = cc
text_eq_sound (c ∷ s) (d ∷ t) h = ground (arith, text_eq_sound s t)
