-- ===== src/Core/Graphemes/Clusters.antt =====
-- The clusters of a text.
use mathlib.Core.List.{append_assoc, append-nil}
use kxinspect_backend.Base.{
  ℕ, ◌≤◌, ◌<◌, ◌≡◌, refl, ap, String, Bool, List, [], ◌∷◌, ◌++◌, length, All, arith, Bool-cases,
  inl, inr, length-append,
}
use kxinspect_backend.Db.Text.{Text}
use kxinspect_backend.Core.Graphemes.{
  breaks_between, clusters_from, grapheme_clusters, run_from, run_after, pending_after,
  is_extended_pictographic,
}

-- `"".join(parts)`
abbrev pub join : List Text → Text
join [] = []
join (part ∷ parts) = part ++ join parts

-- Every cluster has a character, the clusters join to the text, and there are at most so many.
pub record Splits (text : Text) (clusters : List Text) : Type 0 where
  pub joined : join clusters ≡ text
  pub not_empty : All (λ c. 0 < length c) clusters
  pub at_most : length clusters ≤ length text

module _ (category : ℕ → String) where
  from-Splits :
      (current : Text) (previous : ℕ) (pending : Bool) (run : ℕ) (rest : Text)
      → 0 < length current
      → Splits (current ++ rest) (clusters_from category current previous pending run rest)
  unfolding clusters_from
  from-Splits current previous pending run [] h = record {
    joined = refl;
    not_empty = (h, tt);
    at_most = rw append-nil h;
  }
  from-Splits current previous pending run (code ∷ rest) h =
      elim (Bool-cases (breaks_between category previous code pending run)) [
        | inl e ↦
            let s =
              from-Splits (code ∷ []) code (is_extended_pictographic code) (run_from category code)
                rest (omega arith) in
            rw e (record {
              joined = ap (λ t. current ++ t) s.joined;
              not_empty = (h, s.not_empty);
              at_most = let m = s.at_most in omega (arith, length-append current (code ∷ rest));
            })
        | inr e ↦
            let s =
              from-Splits (current ++ (code ∷ [])) code (pending_after category pending code)
                (run_after category run code) rest
                (omega (arith, length-append current (code ∷ []))) in
            rw e (rw (append_assoc current (code ∷ []) rest) at s)
      ]

  -- Whatever the categories of the characters are: the clusters of a text join to the text, none of
  -- them is empty, and there are no more clusters than code points.
  pub grapheme_clusters-Splits : (text : Text) → Splits text (grapheme_clusters category text)
  unfolding grapheme_clusters
  grapheme_clusters-Splits [] = record { joined = refl; not_empty = tt; at_most = omega arith }
  grapheme_clusters-Splits (code ∷ rest) =
      from-Splits (code ∷ []) code (is_extended_pictographic code) (run_from category code) rest
        (omega arith)
