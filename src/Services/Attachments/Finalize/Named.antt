-- ===== src/Services/Attachments/Finalize/Named.antt =====
-- The names that `stage` and `finalize` of app/services/attachment_service.py give, where `glob` does
-- what it documents and UUIDs are fresh.
use kxinspect_backend.Base.{
  ℕ, ◌+◌, ◌≡◌, refl, ap, ◌∙◌, Bool, true, false, not, none, some, List, [], ◌∷◌, ◌++◌, any_of, All,
  All-append, length, leb, ◌==◌, arith, Bool-cases, inl, inr,
}
use kxinspect_backend.Core.Errors.{ok, bind-ok}
use kxinspect_backend.Db.Text.{Text}
use kxinspect_backend.Db.Uploads.{Entry, matches, is_refused_id, has_dots}
use kxinspect_backend.Services.Attachments.{
  jpeg, png, webp, mp4, pdf, MediaType, suffixes_of, first_suffix, starts_with, rpartition,
  base_name, StagedAttachment, UploadSource, AttachmentStager, max_attachments,
  sanitize_display_name, read_chunks, resolve_media_type, finish, with_staged, stage, stage_all,
  Received,
}
use kxinspect_backend.Services.Attachments.Finalize.{
  FinalizedAttachment, entry_of, finalized_one, finalized_from, opaque_id, attachments_path,
}
use kxinspect_backend.Services.Attachments.Finalize.Undo.{is_new, AreFresh}
use kxinspect_backend.Services.Attachments.Finalize.Placed.{IsAddressed}

-- An extension starts with a dot.
abbrev pub HasDot : Text → Type 0
HasDot [] = ⊥
HasDot (c ∷ s) = c ≡ b'.'

abbrev pub AllDotted : List StagedAttachment → Type 0
AllDotted = All (λ (s : StagedAttachment). HasDot s.extension)

first_suffix-HasDot :
    (nfc lower : Text → Text) (sha256 : List ℕ → Text) (m : MediaType)
    → HasDot (first_suffix nfc lower sha256 (suffixes_of m))
first_suffix-HasDot nfc lower sha256 jpeg = refl
first_suffix-HasDot nfc lower sha256 png = refl
first_suffix-HasDot nfc lower sha256 webp = refl
first_suffix-HasDot nfc lower sha256 mp4 = refl
first_suffix-HasDot nfc lower sha256 pdf = refl

module _ (nfc lower : Text → Text) (sha256 : List ℕ → Text) where
  finish-AllDotted :
      (s : AttachmentStager) (upload : UploadSource) (name : Text) (r : Received)
      (next : AttachmentStager)
      → finish nfc lower sha256 s upload name r ≡ ok next
      → AllDotted s.staged
      → AllDotted next.staged
  finish-AllDotted s upload name r next h dotted = elim (Bool-cases (r.size == 0)) [
    | inl e ↦ let k = rw e at h in absurd (cc)
    | inr e ↦
        let k = rw e at h in
        let (media, _, done) =
          bind-ok (resolve_media_type nfc lower sha256 upload.content_type name r.head) _ next k in
        let same : with_staged nfc lower sha256 s name r media ≡ next = cc in
        rw (← same)
          (All-append _ s.staged _ dotted (first_suffix-HasDot nfc lower sha256 media, tt))
  ]

  stage-AllDotted :
      (s : AttachmentStager) (upload : UploadSource) (next : AttachmentStager)
      → stage nfc lower sha256 s upload ≡ ok next
      → AllDotted s.staged
      → AllDotted next.staged
  unfolding stage
  stage-AllDotted s upload next h dotted =
      elim (Bool-cases (leb max_attachments (length s.staged))) [
        | inl e ↦ let k = rw e at h in absurd (cc)
        | inr e ↦
            let k = rw e at h in
            let (name, _, k1) =
              bind-ok (sanitize_display_name nfc lower sha256 upload.filename) _ next k in
            let (r, _, k2) =
              bind-ok
                (read_chunks s.total_bytes (record { size = 0; head = []; bytes = [] })
                  upload.chunks)
                _ next k1 in
            finish-AllDotted s upload name r next k2 dotted
      ]

  pub stage_all-AllDotted :
      (s : AttachmentStager) (uploads : List UploadSource) (done : AttachmentStager)
      → stage_all nfc lower sha256 s uploads ≡ ok done
      → AllDotted s.staged
      → AllDotted done.staged
  unfolding stage_all
  stage_all-AllDotted s [] done h dotted = let same : s ≡ done = cc in rw same at dotted
  stage_all-AllDotted s (upload ∷ rest) done h dotted =
      let (next, e, k) = bind-ok (stage nfc lower sha256 s upload) _ done h in
      stage_all-AllDotted next rest done k (stage-AllDotted s upload next e dotted)

-- A text with neither a slash nor a dot nor a mark of `glob`, as the hexadecimal digits are.
abbrev pub IsPlain : Text → Type 0
IsPlain = All (λ c.
    ((c == b'/') ≡ false)
    × ((c == b'.') ≡ false)
    × ((c == b'*') ≡ false)
    × ((c == b'?') ≡ false)
    × ((c == b'[') ≡ false))

-- What `glob` documents of a pattern that ends in `.*` and has no mark before.
abbrev pub IsGlob : (Text → Text → Bool) → Type 0
IsGlob fnmatch =
    (i name : Text)
    → IsPlain i
    → fnmatch (i ++ (b'.' ∷ b'*' ∷ [])) name ≡ starts_with (i ++ (b'.' ∷ [])) name

opaque_id-IsPlain : (hex : Text) → IsPlain hex → IsPlain (opaque_id hex)
opaque_id-IsPlain hex h = (
  (refl, refl, refl, refl, refl),
  (
    (refl, refl, refl, refl, refl),
    ((refl, refl, refl, refl, refl), ((refl, refl, refl, refl, refl), h)),
  ),
)

starts_with-append : (xs ys zs : Text) → starts_with (xs ++ ys) (xs ++ zs) ≡ starts_with ys zs
starts_with-append [] ys zs = refl
starts_with-append (x ∷ xs) ys zs = ground (arith, starts_with-append xs ys zs)

plain-no_slash : (s : Text) → IsPlain s → any_of (λ d. d == b'/') s ≡ false
plain-no_slash [] h = refl
plain-no_slash (c ∷ s) h = let first = h.0.0 in rw (first, plain-no_slash s h.1)

plain-no_dots : (s : Text) → IsPlain s → has_dots s ≡ false
plain-no_dots [] h = refl
plain-no_dots (c ∷ []) h = refl
plain-no_dots (c ∷ d ∷ s) h = let first = h.0.1 in rw (first, plain-no_dots (d ∷ s) h.1)

plain-is_refused_id : (c : ℕ) (s : Text) → IsPlain (c ∷ s) → is_refused_id (c ∷ s) ≡ false
plain-is_refused_id c s h = rw (plain-no_slash (c ∷ s) h, plain-no_dots (c ∷ s) h)

rpartition-plain : (s : Text) → IsPlain s → rpartition b'/' s ≡ none
unfolding rpartition
rpartition-plain [] h = refl
rpartition-plain (c ∷ s) h = rw (rpartition-plain s h.1, rpartition, h.0.0) refl

rpartition-append : (xs s : Text) → IsPlain s → rpartition b'/' (xs ++ (b'/' ∷ s)) ≡ some (xs, s)
unfolding rpartition
rpartition-append [] s h = rw (rpartition-plain s h) refl
rpartition-append (x ∷ xs) s h = rw (rpartition-append xs s h) refl

base_name-append : (xs s : Text) → IsPlain s → base_name (xs ++ (b'/' ∷ s)) ≡ s
base_name-append xs s h = rw (base_name, rpartition-append xs s h) refl

-- No upload has a name that starts with one of the ids.
abbrev pub AreUnused : (ℕ → Text) → List Entry → Type 0
AreUnused hexes =
    All (λ (e : Entry). (n : ℕ) → starts_with (opaque_id (hexes n) ++ (b'.' ∷ [])) e.name ≡ false)

module _ (fnmatch : Text → Text → Bool) (glob : IsGlob fnmatch) (hexes : ℕ → Text)
    (plain : (n : ℕ) → IsPlain (hexes n)) where
  finalized_one-found :
      (n : ℕ) (s : StagedAttachment)
      → HasDot s.extension
      → matches fnmatch (opaque_id (hexes n)) (entry_of (finalized_one (hexes n) s)) ≡ true
  finalized_one-found n s dotted =
      let id = opaque_id (hexes n) in
      glob id (id ++ s.extension) (opaque_id-IsPlain (hexes n) (plain n))
      ∙ starts_with-append id (b'.' ∷ []) s.extension
      ∙ dot s.extension dotted
    where
      dot : (e : Text) → HasDot e → starts_with (b'.' ∷ []) e ≡ true
      dot [] h = absurd h
      dot (c ∷ e) h = rw h refl

  pub finalized_from-IsAddressed :
      (n : ℕ) (staged : List StagedAttachment)
      → AllDotted staged
      → All (IsAddressed fnmatch) (finalized_from hexes n staged)
  unfolding finalized_from
  finalized_from-IsAddressed n [] dotted = tt
  finalized_from-IsAddressed n (s ∷ staged) dotted =
      let id = opaque_id-IsPlain (hexes n) (plain n) in
      (
        record {
          found = finalized_one-found n s dotted.0;
          accepted = plain-is_refused_id b'a' (b't' ∷ b't' ∷ b'_' ∷ hexes n) id;
          url = base_name-append attachments_path (opaque_id (hexes n)) id;
        },
        finalized_from-IsAddressed (n + 1) staged dotted.1,
      )

  unused_one :
      (e : Entry)
      → ((n : ℕ) → starts_with (opaque_id (hexes n) ++ (b'.' ∷ [])) e.name ≡ false)
      → (n : ℕ) (staged : List StagedAttachment)
      → is_new fnmatch (finalized_from hexes n staged) e ≡ false
  unfolding finalized_from
  unused_one e fresh n [] = refl
  unused_one e fresh n (s ∷ staged) = rw (
    glob (opaque_id (hexes n)) e.name (opaque_id-IsPlain (hexes n) (plain n)),
    fresh n,
    unused_one e fresh (n + 1) staged,
  )

  unused-All :
      (n : ℕ) (staged : List StagedAttachment) (es : List Entry)
      → AreUnused hexes es
      → All (λ e. not (is_new fnmatch (finalized_from hexes n staged) e) ≡ true) es
  unused-All n staged [] h = tt
  unused-All n staged (e ∷ es) h = (ap not (unused_one e h.0 n staged), unused-All n staged es h.1)

  found-All :
      (pre fs : List FinalizedAttachment)
      → All (IsAddressed fnmatch) fs
      → ((e : Entry) → is_new fnmatch fs e ≡ true → is_new fnmatch pre e ≡ true)
      → All (λ f. is_new fnmatch pre (entry_of f) ≡ true) fs
  found-All pre [] h sub = tt
  found-All pre (f ∷ fs) h sub = (
    sub (entry_of f) (let m = h.0.found in rw m refl),
    found-All pre fs h.1 (λ e k. sub e (ground arith)),
  )

  pub finalized_from-AreFresh :
      (n : ℕ) (staged : List StagedAttachment) (es : List Entry)
      → AllDotted staged
      → AreUnused hexes es
      → AreFresh fnmatch (finalized_from hexes n staged) es
  finalized_from-AreFresh n staged es dotted unused = record {
    found =
        found-All (finalized_from hexes n staged) (finalized_from hexes n staged)
          (finalized_from-IsAddressed n staged dotted) (λ e k. k);
    unused = unused-All n staged es unused;
  }
