-- ===== src/Api/Deps.antt =====
-- app/api/deps.py: the metadata of every response, and the access to the developer routes. What the
-- program calls of other libraries is a record of functions, `Platform`.
use kxinspect_backend.Base.{
  ℕ, String, Bool, true, false, ◌||◌, not, Option, none, some, List, [], ◌∷◌, if◌then◌else◌,
}
use kxinspect_backend.Core.Clock.{DateTime, Stamp, format_instant}
use kxinspect_backend.Core.Errors.{api, dev_route_forbidden, Result, ok, raise}
use kxinspect_backend.Db.Text.{Text, text_eq}
use kxinspect_backend.Db.Models.{StoreSnapshot}
use kxinspect_backend.Db.Store.{Store}

-- `uuid_text` is `str(uuid.UUID(…))`, `none` its ValueError; `string` is the string of a text that
-- is only compared from there on, and `stamp` the instant that a text of the contract's form
-- spells; `category` is the Unicode category of a character; `fnmatch` is the test of `glob`;
-- `hexes` gives the fresh UUIDs of a request.
pub record Platform : Type 0 where
  pub uuid_text : Text → Option Text
  pub upper : Text → Text
  pub lower : Text → Text
  pub nfc : Text → Text
  pub category : ℕ → String
  pub sha256 : List ℕ → Text
  pub string : Text → String
  pub stamp : Text → Stamp
  pub fnmatch : Text → Text → Bool
  pub hexes : ℕ → Text

pub record Meta : Type 0 where
  pub schema_version : String
  pub request_id : String
  pub server_time : Stamp
  pub state_epoch : String
  pub store_revision : ℕ

abbrev pub epoch_or_empty : Option StoreSnapshot → String
epoch_or_empty none = ""
epoch_or_empty (some s) = s.state_epoch

abbrev pub revision_or_zero : Option StoreSnapshot → ℕ
revision_or_zero none = 0
revision_or_zero (some s) = s.store_revision

-- `meta_for`, with the id of the request and the clock.
unfoldable pub meta_for : String → DateTime → Store → Meta
meta_for request_id now store = record {
  schema_version = "1";
  request_id = request_id;
  server_time = format_instant now;
  state_epoch = epoch_or_empty store.snapshot;
  store_revision = revision_or_zero store.snapshot;
}

-- `envelope`
pub record Envelope (A : Type 0) : Type 0 where
  pub content : A
  pub meta : Meta

abbrev pub envelope : {A : Type 0} → String → DateTime → Store → A → Envelope A
envelope request_id now store content = record {
  content = content;
  meta = meta_for request_id now store;
}

abbrev pub is_empty : Text → Bool
is_empty [] = true
is_empty (c ∷ s) = false

abbrev pub or_empty : Option Text → Text
or_empty none = []
or_empty (some s) = s

-- `require_dev_access`, with the two settings and the `X-Dev-Token` header.
unfoldable pub require_dev_access : Bool → Text → Option Text → Result (Unit {0})
require_dev_access enabled token supplied =
    if not enabled || is_empty token
    then raise (api dev_route_forbidden)
    else if not (text_eq (or_empty supplied) token)
    then raise (api dev_route_forbidden)
    else ok tt
