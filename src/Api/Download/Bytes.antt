-- ===== src/Api/Download/Bytes.antt =====
-- Which bytes a `Range` request gets.
use kxinspect_backend.Base.{
  drop-drop, length-take, ℕ, ◌+◌, ◌-◌, ◌≤◌, ◌<◌, ◌≡◌, refl, sym, ap, ◌∙◌, ◌||◌, Option, none, some,
  List, ◌++◌, length, take, drop, take-append-drop, length-drop, arith, Bool-cases, inl, inr, ltb,
  leb,
}
use kxinspect_backend.Core.Errors.{Result, ok, raise, ◌>>=◌}
use kxinspect_backend.Db.Text.{Text}
use kxinspect_backend.Api.Download.{
  clip, bounds, ByteRange, range_of, range_of_groups, match_range, read_range, partial, download,
}

clip-bounds :
    (size : ℕ) (r : ByteRange) (first last : ℕ)
    → clip size r ≡ ok (first, last)
    → (first ≤ last) × (last < size)
unfolding clip
clip-bounds size (a, b) first last h = elim (Bool-cases (leb size a || ltb b a)) [
  | inl e ↦ let k = rw e at h in absurd (cc)
  | inr e ↦ let k = rw e at h in (ground arith, ground arith)
]

range_of-bounds :
    (size : ℕ) (header : Text) (first last : ℕ)
    → range_of size header ≡ ok (first, last)
    → (first ≤ last) × (last < size)
unfolding range_of
range_of-bounds size header first last h = go (match_range header) h
  where
    go :
        (g : Option (Text × Text))
        → range_of_groups size g ≡ ok (first, last)
        → (first ≤ last) × (last < size)
    go none h = absurd (cc)
    go (some (raw_start, raw_end)) h = clipped (bounds size raw_start raw_end) h
      where
        clipped :
            (b : Result ByteRange)
            → (b >>= clip size) ≡ ok (first, last)
            → (first ≤ last) × (last < size)
        clipped (raise f) h = absurd (cc)
        clipped (ok r) h = clip-bounds size r first last h

three_parts :
    {A : Type 0} (xs : List A) (a b : ℕ)
    → a ≤ b
    → xs ≡ take a xs ++ (take (b - a + 1) (drop a xs) ++ drop (b + 1) xs)
three_parts xs a b le =
    let e : a + (b - a + 1) ≡ b + 1 = omega arith in
    sym (take-append-drop a xs)
    ∙ ap (λ ys. take a xs ++ ys)
        (sym (take-append-drop (b - a + 1) (drop a xs))
          ∙ ap (λ ys. take (b - a + 1) (drop a xs) ++ ys)
              (drop-drop a (b - a + 1) xs ∙ ap (λ n. drop n xs) e))

-- An answer with a part of a file names a range inside the file, holds exactly the bytes of that
-- range, and its length is what the range says: the file is the bytes before it, the body, and the
-- bytes after it.
pub download-partial :
    (content : List ℕ) (header : Text) (body : List ℕ) (first last size : ℕ)
    → download content (some header) ≡ ok (partial body first last size)
    → (size ≡ length content)
      × (first ≤ last)
      × (last < size)
      × (length body ≡ last - first + 1)
      × (content ≡ take first content ++ (body ++ drop (last + 1) content))
unfolding download read_range
download-partial content header body first last size h =
    go (range_of (length content) header) refl h
  where
    go :
        (r : Result ByteRange)
        → range_of (length content) header ≡ r
        → (r >>= λ range.
            ok (partial (read_range content range.0 range.1) range.0 range.1 (length content)))
          ≡ ok (partial body first last size)
        → (size ≡ length content)
          × (first ≤ last)
          × (last < size)
          × (length body ≡ last - first + 1)
          × (content ≡ take first content ++ (body ++ drop (last + 1) content))
    go (raise f) e h = absurd (cc)
    go (ok (a, b)) e h =
        let p : a ≡ first = ground arith in
        let q : b ≡ last = ground arith in
        let n : length content ≡ size = ground arith in
        let t : take (b - a + 1) (drop a content) ≡ body = ground arith in
        let (le, lt) = range_of-bounds (length content) header a b e in
        rw (sym p, sym q, sym n, sym t)
          (
            refl,
            le,
            lt,
            length-take (b - a + 1) (drop a content) (omega (arith, length-drop a content)),
            three_parts content a b le,
          )
