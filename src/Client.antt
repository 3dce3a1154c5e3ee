-- ===== src/Client.antt =====
-- ui/web/src/lib/api.ts: the requests of the client and what becomes of their answers. The network is an
-- argument: an answer is given.
mod Encoding
mod Calls
mod Resources
mod Inner
pub mod Scoped
unfoldable pub use Encoding.*
unfoldable pub use Calls.*
unfoldable pub use Resources.*
use temporal_loom.Prelude.{
  ℕ, Bool, true, false, not, ◌||◌, ◌==◌, List, [], ◌∷◌, ◌++◌, Option, none, some, Text, text, eqb,
  lookup, is_empty, or_text, if◌then◌else◌,
}
use temporal_loom.Prelude.Decimal.{show}
use temporal_loom.Prelude.Options
use temporal_loom.Json.{Json, null, str, is_truthy, record_or_empty}
use temporal_loom.Browser.{Browser, item_or}

abbrev pub workspace_key : Text
workspace_key = text "lending_claw_active_workspace_id"

-- `getActiveWorkspaceId`
unfoldable pub get_active_workspace_id : Browser → Text
unfolding lookup
get_active_workspace_id b =
    item_or (lookup workspace_key b.session)
      (item_or (lookup workspace_key b.local) (text "default"))

abbrev pub part_text : Part → Option Text
part_text (fixed s) = some (text s)
part_text (encoded t) = encode_uri_component t
part_text (raw t) = some t

-- The text of a template; `none` is the URIError of a part.
unfoldable pub path_text : List Part → Option Text
unfolding encode_uri_component
path_text [] = some []
path_text (p ∷ path) =
    Options.◌>>=◌ (part_text p) (λ t. Options.◌>>=◌ (path_text path) (λ u. some (t ++ u)))

-- `wsPath`
unfoldable pub ws_path : Browser → Text → Option Text
unfolding get_active_workspace_id path_text
ws_path b p = path_text (fixed "/workspaces/" ∷ encoded (get_active_workspace_id b) ∷ raw p ∷ [])

-- The path that `request` puts behind the base.
unfoldable pub request_path : Browser → CallPath → Option Text
unfolding path_text ws_path
request_path b (plain parts) = path_text parts
request_path b (scoped parts) = Options.◌>>=◌ (path_text parts) (λ p. ws_path b p)

-- What `fetch` gives: the status, and the body as `res.json()` reads it, or `none` where that rejects.
pub record Response : Type 0 where
  pub is_ok : Bool
  pub status : ℕ
  pub status_text : Text
  pub body : Option Json

-- What a request comes to: an ApiError with its message, nothing, a value, or another exception, that of
-- `res.json()` or of reading a property of null.
pub data Answer : Type 0 where
  failed : (message : Json) → (status : ℕ) → Answer
  empty : Answer
  value : Json → Answer
  thrown : Answer

abbrev value_or : Option Json → Json → Json
value_or none d = d
value_or (some v) d = if is_truthy v then v else d

-- `body.error || `HTTP ${res.status}``, where a body that cannot be read is `{ error: res.statusText }`.
abbrev error_answer : Option Json → Response → Answer
error_answer (some null) res = thrown
error_answer (some v) res =
    failed
      (value_or (lookup (text "error") (record_or_empty (some v)))
        (str (text "HTTP " ++ show res.status)))
      res.status
error_answer none res =
    failed (value_or (some (str res.status_text)) (str (text "HTTP " ++ show res.status)))
      res.status

abbrev body_answer : Option Json → Answer
body_answer none = thrown
body_answer (some v) = value v

-- `request`, from the response on.
unfoldable pub answer : Response → Answer
unfolding lookup show
answer res =
    if not res.is_ok
    then error_answer res.body res
    else if eqb res.status 204
    then empty
    else body_answer res.body
