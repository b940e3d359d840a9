-- ===== src/Django/Exceptions/Messages.antt =====
-- `resolve_flattener`, `build_messages` and `consistent_messages` of netix_backend/django/exceptions.py.
use Prim.Native.String
use netix_backend.Prelude.{
  ℕ, suc, Bool, true, false, not, ◌&&◌, ◌||◌, List, [], ◌∷◌, ◌++◌, Option, none, some, String,
  str_eq, if◌then◌else◌, Result, ok, err, ◌>>=◌,
}
use netix_backend.Prelude.Int.{pos}
use netix_backend.Prelude.Dict.{Dict, get}
use netix_backend.Env.{or_default}
use netix_backend.Text.Show.{show_int}
use netix_backend.Django.Exceptions.{
  Detail, text, null, other, sequence, collection, mapping, Items, nil, cons, Entries, end, entry,
  joined, str, str_items, flatten_template, flatten_keyed, flatten_first_error, flatten_nested,
  flatten_sequence,
}

abbrev pub http404_message : String
http404_message = "404: Resource not found"

abbrev pub db_unavailable_message : String
db_unavailable_message = "Service temporarily unavailable"

abbrev pub Flattener : Type 0
Flattener = Detail → List String

-- What the handler asks of an exception's class.
pub data Kind : Type 0 where
  validation_error http404 database_error other_error : Kind

-- An exception: its class, `args`, the attributes `detail` and `message`, and its `str`. An
-- attribute that is missing is `none`.
pub record Raised : Type 0 where
  pub kind : Kind
  pub args : List Detail
  pub detail : Option Detail
  pub message : Option Detail
  pub described : String

-- The settings NETIX_ERRORS_*, by their truth; `none` is one that is not set.
pub record Settings : Type 0 where
  pub flattener : Option String
  pub stringified : Option Bool
  pub http404_as_list : Option Bool
  pub non_validation_as_list : Option Bool
  pub consistent_envelope : Option Bool
  pub db_unavailable_503 : Option Bool

pub data ImproperlyConfigured : Type 0 where
  unknown_flattener : String → ImproperlyConfigured

-- The parameter `flattener` of `build_messages`.
pub data Chosen : Type 0 where
  by_setting : Chosen
  by_name : String → Chosen
  by_function : Flattener → Chosen

-- getattr(value, name, None) is taken as missing where it is None.
abbrev pub given_detail : Option Detail → Option Detail
given_detail none = none
given_detail (some null) = none
given_detail (some d) = some d

abbrev pub detail_of : Raised → Detail
detail_of exc =
    or_default (or_default (text exc.described) (given_detail exc.message))
      (given_detail exc.detail)

abbrev pub flatten_all : Flattener → List Detail → List String
flatten_all f [] = []
flatten_all f (d ∷ ds) = f d ++ flatten_all f ds

-- DRF's generic keys leave the path alone.
abbrev pub key_path : String → String → String
key_path path key =
    if str_eq key "detail" || str_eq key "message"
    then path
    else if not (str_eq path "")
    then joined path "." key
    else key

abbrev is_container : Detail → Bool
is_container (mapping es) = true
is_container (sequence ds) = true
is_container _ = false

abbrev pub index_path : String → ℕ → Detail → String
index_path path index item =
    if not (str_eq path "") && is_container item
    then String.◌++◌ path (joined "[" (show_int (pos index)) "]")
    else path

abbrev pub leaf_message : String → String → List String
leaf_message message path =
    if str_eq message ""
    then []
    else (if str_eq path "" then message else joined path ": " message) ∷ []

-- `repr` is the `str` of a list, tuple, set or dict in a payload.
module _ (repr : Detail → String) where
  abbrev pub flatteners : Dict Flattener
  flatteners =
      ("template", flatten_template repr)
      ∷ ("keyed", flatten_keyed repr)
      ∷ ("first_error", flatten_first_error repr)
      ∷ ("nested", flatten_nested repr)
      ∷ ("sequence", flatten_sequence repr)
      ∷ []

  abbrev pub known : String → Option Flattener → Result ImproperlyConfigured Flattener
  known name none = err (unknown_flattener name)
  known name (some f) = ok f

  unfoldable pub resolve_flattener :
      Settings → Option String → Result ImproperlyConfigured Flattener
  resolve_flattener settings name =
      let chosen = or_default (or_default "template" settings.flattener) name in
      known chosen (get flatteners chosen)

  abbrev function_of : Settings → Chosen → Result ImproperlyConfigured Flattener
  function_of settings by_setting = resolve_flattener settings none
  function_of settings (by_name name) = resolve_flattener settings (some name)
  function_of settings (by_function f) = ok f

  unfoldable pub key_values : Entries → List String
  key_values end = []
  key_values (entry k d es) = joined k ": " (str repr d) ∷ key_values es

  unfoldable pub detail_messages : Detail → List String
  detail_messages (sequence ds) = str_items repr ds
  detail_messages (collection ds) = str_items repr ds
  detail_messages (mapping es) = key_values es
  detail_messages d = str repr d ∷ []

  abbrev pub messages_by_kind :
      Settings → Raised → Chosen → Kind → Result ImproperlyConfigured (List String)
  messages_by_kind settings exc flattener validation_error = do
    flatten ← function_of settings flattener
    ok (flatten_all flatten exc.args)
  messages_by_kind settings exc flattener http404 = ok (http404_message ∷ [])
  messages_by_kind settings exc flattener _ = ok (detail_messages (detail_of exc))

  unfoldable pub build_messages :
      Settings → Raised → Chosen → Result ImproperlyConfigured (List String)
  build_messages settings exc flattener = messages_by_kind settings exc flattener exc.kind

  unfoldable mutual
    pub iter_consistent_messages : Detail → String → List String
    iter_consistent_messages (mapping es) path = iter_entries es path
    iter_consistent_messages (sequence ds) path = iter_items ds 0 path
    iter_consistent_messages null path = []
    iter_consistent_messages (text s) path = leaf_message s path
    iter_consistent_messages (other s t) path = leaf_message s path
    iter_consistent_messages (collection ds) path = leaf_message (repr (collection ds)) path

    pub iter_entries : Entries → String → List String
    iter_entries end path = []
    iter_entries (entry k d es) path =
        iter_consistent_messages d (key_path path k) ++ iter_entries es path

    pub iter_items : Items → ℕ → String → List String
    iter_items nil index path = []
    iter_items (cons d ds) index path =
        iter_consistent_messages d (index_path path index d) ++ iter_items ds (suc index) path

  abbrev pub consistent_by_kind : Raised → Kind → List String
  consistent_by_kind exc http404 = http404_message ∷ []
  consistent_by_kind exc _ = iter_consistent_messages (detail_of exc) ""

  unfoldable pub consistent_messages : Raised → List String
  consistent_messages exc = consistent_by_kind exc exc.kind
