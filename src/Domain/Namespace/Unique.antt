-- ===== src/Domain/Namespace/Unique.antt =====
-- Servers that app/domain/namespace.py tells apart by their normal forms and namespaces.
use mathlib.Core.List.{append_assoc, reverse}
use kxinspect_backend.Base.{
  ℕ, suc, ◌≡◌, refl, sym, ap, ◌∙◌, false, ◌||◌, not, List, [], ◌∷◌, ◌++◌, ◌==◌, All, arith,
  Bool-cases, inl, inr,
}
use kxinspect_backend.Core.Errors.{ok, require-then, bind-ok}
use kxinspect_backend.Core.CanonicalJson.{canonical_json, canonical_sha256}
use kxinspect_backend.Core.CanonicalJson.Normal.{normal}
use kxinspect_backend.Core.CanonicalJson.Digest.{normal-canonical}
use kxinspect_backend.Db.Text.{Text, text_eq, str, int_of, is_present, strip}
use kxinspect_backend.Db.Text.RoundTrip.{IsDigits, render-IsDigits, int_of-str, text_eq_sound}
use kxinspect_backend.Domain.Namespace.{
  UrlLibrary, NormalizedBaseUrl, has_colon, bracketed, as_text, http, https, default_ports, given,
  is_given, encode_host, rooted, trim, normal_path, normalize_base_url, payload, remote_namespace,
}

-- The mark does not stand in the text.
abbrev pub Lacks : ℕ → Text → Type 0
Lacks mark = All (λ c. (c == mark) ≡ false)

-- A text without a mark and what follows the mark can be read off.
cut-injective :
    (mark : ℕ) (xs ys r t : Text)
    → Lacks mark xs
    → Lacks mark ys
    → xs ++ (mark ∷ r) ≡ ys ++ (mark ∷ t)
    → (xs ≡ ys) × (r ≡ t)
cut-injective mark [] [] r t hx hy e = (refl, cc)
cut-injective mark [] (y ∷ ys) r t hx hy e = let same : mark ≡ y = cc in absurd (ground arith)
cut-injective mark (x ∷ xs) [] r t hx hy e = let same : x ≡ mark = cc in absurd (ground arith)
cut-injective mark (x ∷ xs) (y ∷ ys) r t hx hy e =
    let (rest, tail) = cut-injective mark xs ys r t hx.1 hy.1 (cc) in
    let same : x ≡ y = cc in (cc, tail)

-- A path is empty or starts with a slash.
abbrev pub IsRooted : Text → Type 0
IsRooted [] = Unit
IsRooted (c ∷ s) = c ≡ b'/'

digits-injective :
    (xs ys r t : Text)
    → IsDigits xs
    → IsDigits ys
    → IsRooted r
    → IsRooted t
    → xs ++ r ≡ ys ++ t
    → (xs ≡ ys) × (r ≡ t)
digits-injective [] [] r t hx hy hr ht e = (refl, e)
digits-injective [] (y ∷ ys) [] t hx hy hr ht e = absurd (cc)
digits-injective [] (y ∷ ys) (c ∷ r) t hx hy hr ht e =
    let same : c ≡ y = cc in let digit = hy.0 in absurd (ground arith)
digits-injective (x ∷ xs) [] r [] hx hy hr ht e = absurd (cc)
digits-injective (x ∷ xs) [] r (c ∷ t) hx hy hr ht e =
    let same : x ≡ c = cc in let digit = hx.0 in absurd (ground arith)
digits-injective (x ∷ xs) (y ∷ ys) r t hx hy hr ht e =
    let (rest, tail) = digits-injective xs ys r t hx.1 hy.1 hr ht (cc) in
    let same : x ≡ y = cc in (cc, tail)

str-injective : (m n : ℕ) → str m ≡ str n → m ≡ n
str-injective m n e = let same = sym (int_of-str m) ∙ ap int_of e ∙ int_of-str n in cc

has_colon-Lacks : (s : Text) → has_colon s ≡ false → Lacks b':' s
has_colon-Lacks [] h = tt
has_colon-Lacks (c ∷ s) h = (ground arith, has_colon-Lacks s (ground arith))

-- A host in brackets does not start like one without.
bracket-apart :
    (h k r t : Text) → Lacks b'[' k → b'[' ∷ ((h ++ (b']' ∷ [])) ++ r) ≡ k ++ (b':' ∷ t) → ⊥
bracket-apart h [] r t lacks e =
    let same : ◌≡◌ {A = ℕ} b'[' b':' = cc in absurd (omega (arith, same))
bracket-apart h (c ∷ k) r t lacks e =
    let same : ◌≡◌ {A = ℕ} b'[' c = cc in let other = lacks.0 in absurd (ground arith)

bracketed-injective :
    (h k r t : Text)
    → Lacks b'[' h
    → Lacks b'[' k
    → Lacks b']' h
    → Lacks b']' k
    → bracketed h ++ (b':' ∷ r) ≡ bracketed k ++ (b':' ∷ t)
    → (h ≡ k) × (r ≡ t)
bracketed-injective h k r t lh lk rh rk e = elim (Bool-cases (has_colon h)) [
  | inl ch ↦ elim (Bool-cases (has_colon k)) [
    | inl ck ↦
        let both = rw (ch, ck, append_assoc h, append_assoc k) at e in
        let inner : h ++ (b']' ∷ b':' ∷ r) ≡ k ++ (b']' ∷ b':' ∷ t) = cc in
        let (hosts, tail) = cut-injective b']' h k (b':' ∷ r) (b':' ∷ t) rh rk inner in (hosts, cc)
    | inr ck ↦ let one = rw (ch, ck) at e in absurd (bracket-apart h k (b':' ∷ r) t lk one)
  ]
  | inr ch ↦ elim (Bool-cases (has_colon k)) [
    | inl ck ↦ let one = rw (ch, ck) at e in absurd (bracket-apart k h (b':' ∷ t) r lh (sym one))
    | inr ck ↦
        let none_of = rw (ch, ck) at e in
        cut-injective b':' h k r t (has_colon-Lacks h ch) (has_colon-Lacks k ck) none_of
  ]
]

-- What the parts of a normal form are.
pub record IsNormal (u : NormalizedBaseUrl) : Type 0 where
  pub scheme : Lacks b':' u.scheme
  pub path : IsRooted u.path

-- The host has no brackets, as a host of `urlsplit` after the codec.
pub record IsHost (host : Text) : Type 0 where
  pub opening : Lacks b'[' host
  pub closing : Lacks b']' host

str-IsDigits : (n : ℕ) → IsDigits (str n)
unfolding str
str-IsDigits n = render-IsDigits (suc n) n

as_text-injective :
    (u v : NormalizedBaseUrl)
    → IsNormal u
    → IsNormal v
    → IsHost u.host
    → IsHost v.host
    → as_text u ≡ as_text v
    → u ≡ v
unfolding as_text
as_text-injective u v nu nv hu hv e =
    let (schemes, after) = cut-injective b':' u.scheme v.scheme _ _ nu.scheme nv.scheme e in
    let (hosts, rest) =
      bracketed-injective u.host v.host (str u.port ++ u.path) (str v.port ++ v.path) hu.opening
        hv.opening hu.closing hv.closing (cc) in
    let (ports, paths) =
      digits-injective (str u.port) (str v.port) u.path v.path (str-IsDigits u.port)
        (str-IsDigits v.port) nu.path nv.path rest in
    let port = str-injective u.port v.port ports in cc

rooted-IsRooted : (s : Text) → IsRooted (rooted s)
rooted-IsRooted [] = tt
rooted-IsRooted (c ∷ []) = elim (Bool-cases (c == b'/')) [ inl e ↦ rw e tt | inr e ↦ rw e refl ]
rooted-IsRooted (c ∷ d ∷ s) = elim (Bool-cases (c == b'/')) [
  | inl e ↦ rw e (ground arith)
  | inr e ↦ rw e refl
]

default_ports-Lacks : (scheme : Text) (n : ℕ) → default_ports scheme ≡ ok n → Lacks b':' scheme
default_ports-Lacks scheme n h = elim (Bool-cases (text_eq scheme http)) [
  | inl e ↦ rw (text_eq_sound scheme http e) (refl, (refl, (refl, (refl, tt))))
  | inr e ↦ elim (Bool-cases (text_eq scheme https)) [
    | inl f ↦ rw (text_eq_sound scheme https f) (refl, (refl, (refl, (refl, (refl, tt)))))
    | inr f ↦ let k = rw (e, f) at h in absurd (cc)
  ]
]

normal-payload :
    (u : NormalizedBaseUrl) (api_major schema_major : Text)
    → normal (payload u api_major schema_major) ≡ payload u api_major schema_major
unfolding normal
normal-payload u api_major schema_major = refl

module _ (library : UrlLibrary) where
  normalize_base_url-IsNormal :
      (raw : Text) (u : NormalizedBaseUrl) → normalize_base_url library raw ≡ ok u → IsNormal u
  unfolding normalize_base_url normal_path
  normalize_base_url-IsNormal raw u h =
      let (_, h1) = require-then (is_present (strip raw)) _ u h in
      let (parts, _, h2) = bind-ok (library.urlsplit (strip raw)) _ u h1 in
      let (default, known, h3) = bind-ok (default_ports (library.lower parts.scheme)) _ u h2 in
      let (_, h4) = require-then (not (is_present parts.query)) _ u h3 in
      let (_, h5) = require-then (not (is_present parts.fragment)) _ u h4 in
      let (_, h6) =
        require-then (not (is_given parts.username || is_given parts.password)) _ u h5 in
      let (hostname, _, h7) = bind-ok (given parts.hostname) _ u h6 in
      let (host, _, h8) = bind-ok (encode_host library (library.lower hostname)) _ u h7 in
      let (port, _, h9) = bind-ok parts.port _ u h8 in
      let schemes : library.lower parts.scheme ≡ u.scheme = cc in
      let paths : rooted (reverse (trim (reverse parts.path))) ≡ u.path = cc in
      record {
        scheme = rw (← schemes) (default_ports-Lacks (library.lower parts.scheme) default known);
        path = rw (← paths) (rooted-IsRooted (reverse (trim (reverse parts.path))));
      }

  -- Take two base URLs with the normal forms `u` and `v`, whose hosts have no brackets, and canonical
  -- bytes that SHA-256 tells apart where they differ. They have one namespace only where the normal
  -- forms, the API versions and the schema versions are the same: two servers never share one.
  pub remote_namespace-injective :
      (sha256 : List ℕ → Text) (first second : Text) (u v : NormalizedBaseUrl)
      (api_u api_v schema_u schema_v n : Text)
      → normalize_base_url library first ≡ ok u
      → normalize_base_url library second ≡ ok v
      → IsHost u.host
      → IsHost v.host
      → ((x y : List ℕ)
          → canonical_json (payload u api_u schema_u) ≡ ok x
          → canonical_json (payload v api_v schema_v) ≡ ok y
          → sha256 x ≡ sha256 y
          → x ≡ y)
      → remote_namespace library sha256 first api_u schema_u ≡ ok n
      → remote_namespace library sha256 second api_v schema_v ≡ ok n
      → (u ≡ v) × (api_u ≡ api_v) × (schema_u ≡ schema_v)
  unfolding remote_namespace canonical_sha256
  remote_namespace-injective sha256 first second u v api_u api_v schema_u schema_v n hu hv host_u
        host_v no_collision e f =
      let from_u = rw hu at e in
      let from_v = rw hv at f in
      let (d, digest_u, text_u) =
        bind-ok (canonical_sha256 sha256 (payload u api_u schema_u)) _ n from_u in
      let (g, digest_v, text_v) =
        bind-ok (canonical_sha256 sha256 (payload v api_v schema_v)) _ n from_v in
      let (x, bytes_u, hash_u) =
        bind-ok (canonical_json (payload u api_u schema_u)) (λ b. ok (sha256 b)) d digest_u in
      let (y, bytes_v, hash_v) =
        bind-ok (canonical_json (payload v api_v schema_v)) (λ b. ok (sha256 b)) g digest_v in
      let digests : d ≡ g = cc in
      let bytes = no_collision x y bytes_u bytes_v (cc) in
      let same =
        sym (normal-payload u api_u schema_u)
        ∙ normal-canonical (payload u api_u schema_u) (payload v api_v schema_v) x bytes_u
            (bytes_v ∙ ap ok (sym bytes))
        ∙ normal-payload v api_v schema_v in
      let texts : as_text u ≡ as_text v = cc in
      let apis : api_u ≡ api_v = cc in
      let schemas : schema_u ≡ schema_v = cc in
      (
        as_text-injective u v (normalize_base_url-IsNormal first u hu)
            (normalize_base_url-IsNormal second v hv) host_u host_v texts,
        apis,
        schemas,
      )
