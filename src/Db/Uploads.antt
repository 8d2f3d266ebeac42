-- ===== src/Db/Uploads.antt =====
-- The files that the state of app/db/store.py refers to: which ids a state expects, how an id is
-- resolved to a file, and what the startup does with files that nothing refers to. A directory is
-- the list of its entries, `none` where it does not exist; `fnmatch pattern name`, the test of
-- `glob`, is a parameter.
pub mod Cleanup
pub mod Found
use kxinspect_backend.Base.{
  ℕ, Bool, true, false, ◌&&◌, ◌||◌, not, Option, none, some, List, [], ◌∷◌, ◌++◌, ◌==◌, any_of,
  filter_by, if◌then◌else◌,
}
use kxinspect_backend.Core.CanonicalJson.Sorting.{lex_lt}
use kxinspect_backend.Db.Text.{Text, text_eq}
use kxinspect_backend.Db.Entities.{
  InventoryReport, Inspection, ItemAction, Photo, ContestAttachment, Charge, Entities,
}
use kxinspect_backend.Services.Attachments.{rpartition, base_name}

pub record Entry : Type 0 where
  pub name : Text
  pub is_file : Bool

abbrev pub Directory : Type 0
Directory = Option (List Entry)

abbrev pub entries : Directory → List Entry
entries none = []
entries (some es) = es

-- `value.rsplit("/", 1)[-1]` of a member that may be missing.
abbrev pub id_if : Option Text → List Text
id_if none = []
id_if (some url) = base_name url ∷ []

abbrev pub photo_ids : List Photo → List Text
photo_ids [] = []
photo_ids (p ∷ ps) = base_name p.url ∷ base_name p.thumbnail_url ∷ photo_ids ps

abbrev pub attachment_ids : List ContestAttachment → List Text
attachment_ids [] = []
attachment_ids (a ∷ as_) = base_name a.download_url ∷ (id_if a.thumbnail_url ++ attachment_ids as_)

abbrev pub charge_ids : List Charge → List Text
charge_ids [] = []
charge_ids (c ∷ cs) = photo_ids c.photos ++ (attachment_ids c.contest_attachments ++ charge_ids cs)

abbrev pub report_ids : List InventoryReport → List Text
report_ids [] = []
report_ids (r ∷ rs) = base_name r.report_url ∷ report_ids rs

abbrev pub action_ids : List ItemAction → List Text
action_ids [] = []
action_ids (a ∷ rest) = id_if a.thumbnail_url ++ action_ids rest

abbrev pub inspection_ids : List Inspection → List Text
inspection_ids [] = []
inspection_ids (i ∷ is) = action_ids i.item_actions ++ inspection_ids is

-- `_referenced_attachment_ids`; the set is a list here, of which only the members are asked for.
unfoldable pub referenced_attachment_ids : Entities → List Text
referenced_attachment_ids e =
    charge_ids e.charges ++ (report_ids e.inventory_reports ++ inspection_ids e.inspections)

-- `".." in opaque_id`
abbrev pub has_dots : Text → Bool
has_dots [] = false
has_dots (c ∷ []) = false
has_dots (c ∷ d ∷ s) = (c == b'.' && d == b'.') || has_dots (d ∷ s)

-- `not opaque_id or "/" in opaque_id or ".." in opaque_id`
abbrev pub is_refused_id : Text → Bool
is_refused_id [] = true
is_refused_id (c ∷ s) = any_of (λ d. d == b'/') (c ∷ s) || has_dots (c ∷ s)

-- `sorted` of the entries of one directory, whose paths differ in their names.
abbrev pub insert_entry : Entry → List Entry → List Entry
insert_entry e [] = e ∷ []
insert_entry e (f ∷ fs) =
    let rest = insert_entry e fs in if lex_lt f.name e.name then f ∷ rest else e ∷ f ∷ fs

abbrev pub sort_entries : List Entry → List Entry
sort_entries [] = []
sort_entries (e ∷ es) = insert_entry e (sort_entries es)

abbrev pub first_file : List Entry → Option Entry
first_file [] = none
first_file (e ∷ es) = if e.is_file then some e else first_file es

-- `Path.stem`: the name up to its last dot, unless it starts or ends there.
unfoldable pub stem : Text → Text
stem name = elim (rpartition b'.' name) [
  | none ↦ name
  | some ([], _) ↦ name
  | some (_ ∷ _, []) ↦ name
  | some (c ∷ before, _ ∷ _) ↦ c ∷ before
]

abbrev pub first_found : Option Entry → Option Entry → Option Entry
first_found (some e) other = some e
first_found none other = other

abbrev pub is_missing : Option Entry → Bool
is_missing none = true
is_missing (some e) = false

-- `candidate.is_dir()` or a stem that is referenced: the entry stays.
abbrev pub is_kept : List Text → Entry → Bool
is_kept referenced e = not e.is_file || any_of (λ i. text_eq i (stem e.name)) referenced

-- `_remove_unreferenced_uploads`
unfoldable pub remove_unreferenced_uploads : List Text → Directory → Directory
remove_unreferenced_uploads referenced none = none
remove_unreferenced_uploads referenced (some es) = some (filter_by (is_kept referenced) es)

module _ (fnmatch : Text → Text → Bool) where
  -- `f"{opaque_id}.*"` against a name
  abbrev pub matches : Text → Entry → Bool
  matches opaque_id e = fnmatch (opaque_id ++ (b'.' ∷ b'*' ∷ [])) e.name

  -- One root of the loop.
  unfoldable pub file_in : Text → Directory → Option Entry
  file_in opaque_id root = first_file (sort_entries (filter_by (matches opaque_id) (entries root)))

  -- `_resolve_attachment`: the uploads before the static media.
  unfoldable pub resolve_attachment : Directory → Directory → Text → Option Entry
  resolve_attachment uploads static opaque_id =
      if is_refused_id opaque_id
      then none
      else first_found (file_in opaque_id uploads) (file_in opaque_id static)

  -- The list `missing` of `_verify_attachments`.
  unfoldable pub missing_attachments : Directory → Directory → List Text → List Text
  missing_attachments uploads static ids =
      filter_by (λ opaque_id. is_missing (resolve_attachment uploads static opaque_id)) ids
