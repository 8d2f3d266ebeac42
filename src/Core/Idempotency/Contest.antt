-- ===== src/Core/Idempotency/Contest.antt =====
-- Which contests have one digest, and which requests one scope, in app/core/idempotency.py. The
-- metadata of a contest are those that `contest_charge` of app/api/v1/endpoints/commands.py writes.
use kxinspect_backend.Base.{ℕ, ◌≡◌, ◌≢◌, refl, sym, ap, ◌∙◌, List, [], ◌∷◌, ◌++◌, All}
use kxinspect_backend.Base.Int.{pos}
use kxinspect_backend.Core.Errors.{Result, ok, raise, ◌>>=◌}
use kxinspect_backend.Core.CanonicalJson.{
  Json, int, text, arr, obj, Items, cons, Members, end, member, canonical_json, canonical_sha256,
}
use kxinspect_backend.Core.CanonicalJson.Sorting.{
  utf16_char, utf16_sort_key, lex_lt, insert_member, sort_members,
}
use kxinspect_backend.Core.CanonicalJson.Normal.{members_of, normal, normal_items}
use kxinspect_backend.Core.CanonicalJson.Digest.{normal-canonical}
use kxinspect_backend.Core.Idempotency.{
  AttachmentDigestPart, as_tuple, tuples, metadata_key, attachments_key, contest_digest, scope_key,
}
use kxinspect_backend.Db.Text.{Text}

-- The metadata that take part in the digest.
pub record ContestFacts : Type 0 where
  pub reason : Text
  pub expected_state_epoch : Text
  pub expected_version : ℕ

abbrev reason_key : Text
reason_key = b'r' ∷ b'e' ∷ b'a' ∷ b's' ∷ b'o' ∷ b'n' ∷ []

abbrev epoch_key : Text
epoch_key =
    b'e' ∷ b'x' ∷ b'p' ∷ b'e' ∷ b'c' ∷ b't' ∷ b'e' ∷ b'd' ∷ b'S' ∷ b't' ∷ b'a' ∷ b't' ∷ b'e' ∷ b'E'
    ∷ b'p' ∷ b'o' ∷ b'c' ∷ b'h' ∷ []

abbrev version_key : Text
version_key =
    b'e' ∷ b'x' ∷ b'p' ∷ b'e' ∷ b'c' ∷ b't' ∷ b'e' ∷ b'd' ∷ b'V' ∷ b'e' ∷ b'r' ∷ b's' ∷ b'i' ∷ b'o'
    ∷ b'n' ∷ []

-- `metadata={"reason": …, "expectedStateEpoch": …, "expectedVersion": …}`
abbrev pub contest_metadata : ContestFacts → Members
contest_metadata facts = member reason_key (text facts.reason) (
    member epoch_key (text facts.expected_state_epoch)
      (member version_key (int (pos facts.expected_version)) end))

abbrev contest_value : ContestFacts → List AttachmentDigestPart → Json
contest_value facts parts = obj (
    member metadata_key (obj (contest_metadata facts))
      (member attachments_key (arr (tuples parts)) end))

abbrev sorted_metadata : ContestFacts → Members
sorted_metadata facts = member epoch_key (text facts.expected_state_epoch) (
    member version_key (int (pos facts.expected_version))
      (member reason_key (text facts.reason) end))

normal-tuples : (parts : List AttachmentDigestPart) → normal_items (tuples parts) ≡ tuples parts
unfolding normal
normal-tuples [] = refl
normal-tuples (part ∷ parts) = ap (cons (as_tuple part)) (normal-tuples parts)

normal-contest :
    (facts : ContestFacts) (parts : List AttachmentDigestPart)
    → normal (contest_value facts parts)
      ≡ obj (
          member attachments_key
            (arr (tuples parts))
            (member metadata_key (obj (sorted_metadata facts)) end))
unfolding normal members_of sort_members insert_member utf16_sort_key utf16_char lex_lt
normal-contest facts parts =
    ap
      (λ (xs : Items).
        obj
          (member attachments_key (arr xs) (member metadata_key (obj (sorted_metadata facts)) end)))
      (normal-tuples parts)

tuples-injective : (ps qs : List AttachmentDigestPart) → tuples ps ≡ tuples qs → ps ≡ qs
tuples-injective [] [] e = refl
tuples-injective [] (q ∷ qs) e = absurd (cc)
tuples-injective (p ∷ ps) [] e = absurd (cc)
tuples-injective (p ∷ ps) (q ∷ qs) e =
    let rest = tuples-injective ps qs (cc) in
    let sha : p.sha256 ≡ q.sha256 = cc in
    let size : p.size_bytes ≡ q.size_bytes = cc in
    let media : p.media_type ≡ q.media_type = cc in
    let name : p.sanitized_display_name ≡ q.sanitized_display_name = cc in cc

contest_value-injective :
    (f g : ContestFacts) (ps qs : List AttachmentDigestPart)
    → normal (contest_value f ps) ≡ normal (contest_value g qs)
    → (f ≡ g) × (ps ≡ qs)
contest_value-injective f g ps qs e =
    let whole = sym (normal-contest f ps) ∙ e ∙ normal-contest g qs in
    let reasons : f.reason ≡ g.reason = cc in
    let epochs : f.expected_state_epoch ≡ g.expected_state_epoch = cc in
    let versions : f.expected_version ≡ g.expected_version = cc in
    let items : tuples ps ≡ tuples qs = cc in (cc, tuples-injective ps qs items)

sha256-digest :
    (sha256 : List ℕ → Text) (a : Json) (d : Text)
    → canonical_sha256 sha256 a ≡ ok d
    → (bytes : List ℕ) × (canonical_json a ≡ ok bytes) × (sha256 bytes ≡ d)
unfolding canonical_sha256
sha256-digest sha256 a d h = parts (canonical_json a) h
  where
    parts :
        (m : Result (List ℕ))
        → (m >>= λ bytes. ok (sha256 bytes)) ≡ ok d
        → (bytes : List ℕ) × (m ≡ ok bytes) × (sha256 bytes ≡ d)
    parts (ok bytes) e = (bytes, refl, cc)
    parts (raise f) e = absurd (cc)

-- Take two contests with one digest, whose canonical bytes SHA-256 tells apart where they differ.
-- They have the same reason, expected epoch and expected version, and the same attachments (by
-- hash, size, media type and name) in the same order.
pub contest_digest-injective :
    (sha256 : List ℕ → Text) (f g : ContestFacts) (ps qs : List AttachmentDigestPart) (d : Text)
    → ((x y : List ℕ)
        → canonical_json (contest_value f ps) ≡ ok x
        → canonical_json (contest_value g qs) ≡ ok y
        → sha256 x ≡ sha256 y
        → x ≡ y)
    → contest_digest sha256 (contest_metadata f) ps ≡ ok d
    → contest_digest sha256 (contest_metadata g) qs ≡ ok d
    → (f ≡ g) × (ps ≡ qs)
unfolding contest_digest
contest_digest-injective sha256 f g ps qs d no_collision h k =
    let (x, bytes_of_f, digest_of_f) = sha256-digest sha256 (contest_value f ps) d h in
    let (y, bytes_of_g, digest_of_g) = sha256-digest sha256 (contest_value g qs) d k in
    let same = no_collision x y bytes_of_f bytes_of_g (digest_of_f ∙ sym digest_of_g) in
    contest_value-injective f g ps qs (
      normal-canonical (contest_value f ps) (contest_value g qs) x bytes_of_f
        (bytes_of_g ∙ ap ok (sym same)))

-- No `#` in a text.
abbrev pub NoHash : Text → Type 0
NoHash = All (λ c. c ≢ b'#')

hash-ne : (r t : Text) → NoHash (r ++ (b'#' ∷ t)) → ⊥
hash-ne [] t h = h.0 refl
hash-ne (c ∷ r) t h = hash-ne r t h.1

hash-append :
    (j k r t : Text) → NoHash k → NoHash t → j ++ (b'#' ∷ k) ≡ r ++ (b'#' ∷ t) → (j ≡ r) × (k ≡ t)
hash-append [] k [] t hk ht e = (refl, cc)
hash-append [] k (c ∷ r) t hk ht e =
    let same : k ≡ r ++ (b'#' ∷ t) = cc in absurd (hash-ne r t (rw same at hk))
hash-append (c ∷ j) k [] t hk ht e =
    let same : t ≡ j ++ (b'#' ∷ k) = cc in absurd (hash-ne j k (rw same at ht))
hash-append (c ∷ j) k (d ∷ r) t hk ht e = let rest = hash-append j k r t hk ht (cc) in (cc, rest.1)

append-cancel : (xs ys zs : Text) → xs ++ ys ≡ xs ++ zs → ys ≡ zs
append-cancel [] ys zs e = e
append-cancel (x ∷ xs) ys zs e = append-cancel xs ys zs (cc)

-- On one route, two keys without a `#`, as UUIDs are, have one scope only where they are the same
-- key on the same resource, whatever the id of the resource contains.
pub scope_key-injective :
    (upper : Text → Text) (method route r t j k : Text)
    → NoHash j
    → NoHash k
    → scope_key upper method route r j ≡ scope_key upper method route t k
    → (r ≡ t) × (j ≡ k)
unfolding scope_key
scope_key-injective upper method route r t j k hj hk e =
    let after_method = append-cancel (upper method) _ _ e in
    let after_route =
      append-cancel route (b'#' ∷ (r ++ (b'#' ∷ j))) (b'#' ∷ (t ++ (b'#' ∷ k))) (cc) in
    hash-append r j t k hj hk (cc)
