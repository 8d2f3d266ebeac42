-- ===== src/Core/Graphemes.antt =====
-- app/core/graphemes.py: the reduced segmentation into user-perceived characters. The Unicode
-- general category of a code point, `unicodedata.category`, is a parameter.
pub mod Clusters
use kxinspect_backend.Base.{
  ℕ, ◌+◌, ◌-◌, ◌%◌, String, Bool, true, false, ◌&&◌, ◌||◌, not, List, [], ◌∷◌, ◌++◌, length, any_of,
  ltb, leb, ◌==◌, if◌then◌else◌, str_eq,
}
use kxinspect_backend.Db.Text.{Text}

abbrev pub zwj : ℕ
zwj = 0x200d

abbrev pub cr : ℕ
cr = 0x0d

abbrev pub lf : ℕ
lf = 0x0a

-- `code in range(low, high)`
abbrev pub in_range : ℕ → ℕ → ℕ → Bool
in_range low high code = leb low code && ltb code high

abbrev pub is_prepend : ℕ → Bool
is_prepend code =
    in_range 0x0600 0x0606 code
    || any_of (λ p. code == p)
        (0x06dd ∷ 0x070f ∷ 0x0890 ∷ 0x0891 ∷ 0x08e2 ∷ 0x0d4e ∷ 0x110bd ∷ 0x110cd ∷ [])

abbrev pub is_regional : ℕ → Bool
is_regional = in_range 0x1f1e6 0x1f200

abbrev pub is_hangul_l : ℕ → Bool
is_hangul_l = in_range 0x1100 0x1160

abbrev pub is_hangul_v : ℕ → Bool
is_hangul_v = in_range 0x1160 0x11a8

abbrev pub is_hangul_t : ℕ → Bool
is_hangul_t = in_range 0x11a8 0x1200

abbrev pub is_hangul_syllable : ℕ → Bool
is_hangul_syllable = in_range 0xac00 0xd7a4

unfoldable pub is_extended_pictographic : ℕ → Bool
is_extended_pictographic code =
    code == 0x00a9
    || code == 0x00ae
    || (leb 0x203c code && leb code 0x3299)
    || (leb 0x1f000 code && leb code 0x1faff)
    || (leb 0x1fc00 code && leb code 0x1fffd)

unfoldable pub is_hangul_lv : ℕ → Bool
is_hangul_lv code = is_hangul_syllable code && (code - 0xac00) % 28 == 0

unfoldable pub is_hangul_lvt : ℕ → Bool
is_hangul_lvt code = is_hangul_syllable code && not ((code - 0xac00) % 28 == 0)

module _ (category : ℕ → String) where
  -- `unicodedata.category(chr(code)) in {…}`
  abbrev pub has_category : List String → ℕ → Bool
  has_category names code = any_of (str_eq (category code)) names

  unfoldable pub is_extend : ℕ → Bool
  is_extend code =
      in_range 0x1f3fb 0x1f400 code
      || code == 0xfe0e
      || code == 0xfe0f
      || has_category ("Mn" ∷ "Me" ∷ []) code

  unfoldable pub is_spacing_mark : ℕ → Bool
  is_spacing_mark code = has_category ("Mc" ∷ []) code

  unfoldable pub is_control : ℕ → Bool
  is_control code =
      code == cr
      || code == lf
      || has_category ("Zl" ∷ "Zp" ∷ []) code
      || (has_category ("Cc" ∷ "Cs" ∷ "Cf" ∷ []) code && not (code == zwj))

  -- `_breaks_between`; the rules are tried in order.
  unfoldable pub breaks_between : ℕ → ℕ → Bool → ℕ → Bool
  breaks_between previous current pictographic_pending regional_run =
      if previous == cr && current == lf
      then false
      else if is_control previous || is_control current
      then true
      else if is_hangul_l previous
          && (is_hangul_l current
              || is_hangul_v current
              || is_hangul_lv current
              || is_hangul_lvt current)
      then false
      else if (is_hangul_v previous || is_hangul_lv previous)
          && (is_hangul_v current || is_hangul_t current)
      then false
      else if (is_hangul_t previous || is_hangul_lvt previous) && is_hangul_t current
      then false
      else if is_extend current || current == zwj
      then false
      else if is_spacing_mark current
      then false
      else if is_prepend previous
      then false
      else if previous == zwj && pictographic_pending && is_extended_pictographic current
      then false
      else not (is_regional previous && is_regional current && regional_run % 2 == 1)

  -- The flags after a character that starts a cluster, and after one that continues it.
  abbrev pub run_from : ℕ → ℕ
  run_from code = if is_regional code then 1 else 0

  abbrev pub pending_after : Bool → ℕ → Bool
  pending_after pending code =
      if is_extended_pictographic code
      then true
      else if not (is_extend code || code == zwj)
      then false
      else pending

  abbrev pub run_after : ℕ → ℕ → ℕ
  run_after run code = if is_regional code then run + 1 else run

  -- The loop of `grapheme_clusters`: the current cluster, its last character, the two flags, and
  -- the characters that are left.
  unfoldable pub clusters_from : Text → ℕ → Bool → ℕ → Text → List Text
  clusters_from current previous pending run [] = current ∷ []
  clusters_from current previous pending run (code ∷ rest) =
      let closed =
        current
        ∷ clusters_from (code ∷ []) code (is_extended_pictographic code) (run_from code) rest in
      let continued =
        clusters_from (current ++ (code ∷ [])) code (pending_after pending code)
          (run_after run code) rest in
      if breaks_between previous code pending run then closed else continued

  unfoldable pub grapheme_clusters : Text → List Text
  grapheme_clusters [] = []
  grapheme_clusters (code ∷ rest) =
      clusters_from (code ∷ []) code (is_extended_pictographic code) (run_from code) rest

  unfoldable pub grapheme_length : Text → ℕ
  grapheme_length text = length (grapheme_clusters text)
