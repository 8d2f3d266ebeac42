-- ===== src/Services/Attachments/Limits.antt =====
-- The limits that staged attachments respect.
use kxinspect_backend.Base.{
  ℕ, zero, suc, ◌+◌, ◌-◌, ◌≤◌, ◌<◌, ◌≡◌, refl, sym, ap, ◌∙◌, false, Option, none, some, List, [],
  ◌∷◌, ◌++◌, length, take, All, All-append, length-append, arith, Bool-cases, inl, inr, ltb, leb,
  ◌==◌, if◌then◌else◌, length-take, leb→le, ltb→lt,
}
use kxinspect_backend.Core.Errors.{Result, ok, raise, ◌>>=◌}
use kxinspect_backend.Db.Text.{Text}
use kxinspect_backend.Services.Attachments.{
  max_attachments, max_attachment_bytes, max_attachment_total_bytes, max_display_name_chars,
  rpartition, cut_name, checked_name, StagedAttachment, UploadSource, AttachmentStager, Received,
  receive, read_chunks, sanitize_display_name, finish, stage, stage_all, resolve_media_type,
  MediaType, with_staged, safe_name,
}

abbrev pub sizes : List StagedAttachment → ℕ
sizes [] = 0
sizes (a ∷ rest) = a.size_bytes + sizes rest

same_ok : {A : Type 0} (a b : A) → ok a ≡ ok b → a ≡ b
same_ok a b h = cc

sizes-append : (xs ys : List StagedAttachment) → sizes (xs ++ ys) ≡ sizes xs + sizes ys
sizes-append [] ys = omega arith
sizes-append (x ∷ xs) ys = omega (arith, sizes-append xs ys)

sizes-snoc :
    (xs : List StagedAttachment) (x : StagedAttachment)
    → sizes (xs ++ (x ∷ [])) ≡ sizes xs + x.size_bytes
sizes-snoc xs x = sizes-append xs (x ∷ []) ∙ omega arith

-- A staged file is not empty, within the file limit, and has a short name that is not empty.
pub record IsAllowed (a : StagedAttachment) : Type 0 where
  pub has_bytes : 0 < a.size_bytes
  pub file_limit : a.size_bytes ≤ max_attachment_bytes
  pub named : 0 < length a.display_name
  pub short_name : length a.display_name ≤ max_display_name_chars

-- The request's files are within all limits, and the running total is the sum of their sizes.
pub record WithinLimits (s : AttachmentStager) : Type 0 where
  pub count_limit : length s.staged ≤ max_attachments
  pub total_ok : s.total_bytes ≡ sizes s.staged
  pub total_limit : s.total_bytes ≤ max_attachment_total_bytes
  pub each : All IsAllowed s.staged

length-take_le :
    {A : Type 0} (n : ℕ) (xs : List A) → (length (take n xs) ≤ n) × (length (take n xs) ≤ length xs)
length-take_le zero xs = (omega arith, omega arith)
length-take_le (suc n) [] = (omega arith, omega arith)
length-take_le (suc n) (x ∷ xs) = let p = length-take_le n xs in (omega arith, omega arith)

-- A cut name is within the limit, and not empty.
cut_name-bound :
    (name : Text)
    → max_display_name_chars < length name
    → (0 < length (cut_name name)) × (length (cut_name name) ≤ max_display_name_chars)
unfolding cut_name
cut_name-bound name h = go (rpartition b'.' name)
  where
    plain :
        (0 < length (take max_display_name_chars name))
        × (length (take max_display_name_chars name) ≤ max_display_name_chars)
    plain = rw (length-take max_display_name_chars name (omega arith)) (omega arith, omega arith)

    go :
        (x : Option (Text × Text))
        → let cut : Text = elim x [
          | none ↦ take max_display_name_chars name
          | some (stem, after) ↦
              if leb (length after) 10
              then take (max_display_name_chars - length after - 1) stem ++ (b'.' ∷ after)
              else take max_display_name_chars name
        ] in
          (0 < length cut) × (length cut ≤ max_display_name_chars)
    go none = plain
    go (some (stem, after)) = elim (Bool-cases (leb (length after) 10)) [
      | inr e ↦ rw e plain
      | inl e ↦
          let p = (length-take_le (max_display_name_chars - length after - 1) stem).0 in
          let q = leb→le (length after) 10 e in
          rw
            (
              e,
              length-append (take (max_display_name_chars - length after - 1) stem) (b'.' ∷ after),
            )
            (omega arith, omega arith)
    ]

read_chunks-bound :
    (total : ℕ) (r : Received) (chunks : List (List ℕ)) (r' : Received)
    → r.size ≤ max_attachment_bytes
    → total + r.size ≤ max_attachment_total_bytes
    → read_chunks total r chunks ≡ ok r'
    → (r'.size ≤ max_attachment_bytes) × (total + r'.size ≤ max_attachment_total_bytes)
unfolding read_chunks
read_chunks-bound total r [] r' h k e = let p : r ≡ r' = cc in (rw p at h, rw p at k)
read_chunks-bound total r ([] ∷ rest) r' h k e = let p : r ≡ r' = cc in (rw p at h, rw p at k)
read_chunks-bound total r ((b ∷ bs) ∷ rest) r' h k e =
    elim (Bool-cases (ltb max_attachment_bytes (r.size + length (b ∷ bs)))) [
      | inl p ↦ let q = rw p at e in absurd (cc)
      | inr p ↦
          elim (Bool-cases (ltb max_attachment_total_bytes (total + (r.size + length (b ∷ bs))))) [
            | inl q ↦ let x = rw (p, q) at e in absurd (cc)
            | inr q ↦
                read_chunks-bound total (receive r (b ∷ bs)) rest r' (ground arith) (ground arith)
                  (rw (p, q) at e)
          ]
    ]

checked_name-bound :
    (raw name : Text)
    → checked_name raw ≡ ok name
    → (0 < length name) × (length name ≤ max_display_name_chars)
checked_name-bound [] name h = absurd (cc)
checked_name-bound (c ∷ s) name h =
    elim (Bool-cases (ltb max_display_name_chars (length (c ∷ s)))) [
      | inl e ↦
          let p : cut_name (c ∷ s) ≡ name = same_ok _ _ (rw e at h) in
          rw (sym p) (cut_name-bound (c ∷ s) (ltb→lt max_display_name_chars (length (c ∷ s)) e))
      | inr e ↦
          let p : c ∷ s ≡ name = same_ok _ _ (rw e at h) in
          rw (sym p) (bound (c ∷ s) (omega arith) e)
    ]
  where
    bound :
        (t : Text)
        → 0 < length t
        → ltb max_display_name_chars (length t) ≡ false
        → (0 < length t) × (length t ≤ max_display_name_chars)
    bound t a e = (a, ground arith)

module _ (nfc lower : Text → Text) (sha256 : List ℕ → Text) where
  sanitized-bound :
      (filename : Option Text) (name : Text)
      → sanitize_display_name nfc lower sha256 filename ≡ ok name
      → (0 < length name) × (length name ≤ max_display_name_chars)
  unfolding sanitize_display_name
  sanitized-bound none name h = absurd (cc)
  sanitized-bound (some raw) name h = checked_name-bound (safe_name nfc lower sha256 raw) name h

  with_staged-WithinLimits :
      (s : AttachmentStager) (name : Text) (r : Received) (m : MediaType)
      → WithinLimits s
      → length s.staged < max_attachments
      → (0 < length name) × (length name ≤ max_display_name_chars)
      → 0 < r.size
      → (r.size ≤ max_attachment_bytes) × (s.total_bytes + r.size ≤ max_attachment_total_bytes)
      → WithinLimits (with_staged nfc lower sha256 s name r m)
  with_staged-WithinLimits s name r m w room named bytes limits = record {
    count_limit = omega (arith, length-append s.staged (_ ∷ []));
    total_ok = ap (λ n. n + r.size) w.total_ok ∙ sym (sizes-snoc s.staged _);
    total_limit = limits.1;
    each = All-append IsAllowed s.staged _ w.each (
      record { has_bytes = bytes; file_limit = limits.0; named = named.0; short_name = named.1 },
      tt,
    );
  }

  finish-WithinLimits :
      (s : AttachmentStager) (upload : UploadSource) (name : Text) (r : Received)
      (s' : AttachmentStager)
      → WithinLimits s
      → length s.staged < max_attachments
      → (0 < length name) × (length name ≤ max_display_name_chars)
      → (r.size ≤ max_attachment_bytes) × (s.total_bytes + r.size ≤ max_attachment_total_bytes)
      → finish nfc lower sha256 s upload name r ≡ ok s'
      → WithinLimits s'
  finish-WithinLimits s upload name r s' w room named limits e = elim (Bool-cases (r.size == 0)) [
    | inl z ↦ let k = rw z at e in absurd (cc)
    | inr z ↦
        typed (resolve_media_type nfc lower sha256 upload.content_type name r.head) (rw z at e)
          (ground arith)
  ]
    where
      typed :
          (m : Result MediaType)
          → (m >>= λ t. ok (with_staged nfc lower sha256 s name r t)) ≡ ok s'
          → 0 < r.size
          → WithinLimits s'
      typed (raise f) h b = absurd (cc)
      typed (ok t) h b =
          let p : with_staged nfc lower sha256 s name r t ≡ s' = same_ok _ _ h in
          rw p at (with_staged-WithinLimits s name r t w room named b limits)

  stage-WithinLimits :
      (s : AttachmentStager) (upload : UploadSource) (s' : AttachmentStager)
      → WithinLimits s
      → stage nfc lower sha256 s upload ≡ ok s'
      → WithinLimits s'
  unfolding stage
  stage-WithinLimits s upload s' w e = elim (Bool-cases (leb max_attachments (length s.staged))) [
    | inl z ↦ let k = rw z at e in absurd (cc)
    | inr z ↦
        named (sanitize_display_name nfc lower sha256 upload.filename) refl (rw z at e)
          (ground arith)
  ]
    where
      start : Received
      start = record { size = 0; head = []; bytes = [] }

      received :
          (name : Text) (r : Result Received)
          → (0 < length name) × (length name ≤ max_display_name_chars)
          → read_chunks s.total_bytes (record { size = 0; head = []; bytes = [] }) upload.chunks ≡ r
          → (r >>= finish nfc lower sha256 s upload name) ≡ ok s'
          → length s.staged < max_attachments
          → WithinLimits s'
      received name (raise f) n q h room = absurd (cc)
      received name (ok r) n q h room =
          let t = w.total_limit in
          finish-WithinLimits s upload name r s' w room n
            (read_chunks-bound s.total_bytes (record { size = 0; head = []; bytes = [] })
              upload.chunks r (omega arith) (omega arith) q)
            h

      named :
          (n : Result Text)
          → sanitize_display_name nfc lower sha256 upload.filename ≡ n
          → (n >>= λ name.
              read_chunks s.total_bytes (record { size = 0; head = []; bytes = [] }) upload.chunks
              >>= finish nfc lower sha256 s upload name)
            ≡ ok s'
          → length s.staged < max_attachments
          → WithinLimits s'
      named (raise f) q h room = absurd (cc)
      named (ok name) q h room =
          received name _ (sanitized-bound upload.filename name q) refl h room

-- If the parts of a request are all taken by a stager that is within the limits, whatever their
-- names, types and chunks are, then it still is: there are at most five files, none is empty or
-- above 10 MiB, the running total is the sum of their sizes and at most 25 MiB, and every display
-- name has from 1 to 120 characters.
pub stage_all-WithinLimits :
    (nfc lower : Text → Text) (sha256 : List ℕ → Text) (s : AttachmentStager)
    (uploads : List UploadSource) (s' : AttachmentStager)
    → WithinLimits s
    → stage_all nfc lower sha256 s uploads ≡ ok s'
    → WithinLimits s'
unfolding stage_all
stage_all-WithinLimits nfc lower sha256 s [] s' w h = let p : s ≡ s' = same_ok _ _ h in rw p at w
stage_all-WithinLimits nfc lower sha256 s (upload ∷ rest) s' w h =
    go (stage nfc lower sha256 s upload) refl h
      (λ next v k. stage_all-WithinLimits nfc lower sha256 next rest s' v k)
  where
    go :
        (n : Result AttachmentStager)
        → stage nfc lower sha256 s upload ≡ n
        → (n >>= λ next. stage_all nfc lower sha256 next rest) ≡ ok s'
        → ((next : AttachmentStager)
            → WithinLimits next
            → stage_all nfc lower sha256 next rest ≡ ok s'
            → WithinLimits s')
        → WithinLimits s'
    go (raise f) q h step = absurd (cc)
    go (ok next) q h step = step next (stage-WithinLimits nfc lower sha256 s upload next w q) h
