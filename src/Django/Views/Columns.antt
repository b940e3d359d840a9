-- ===== src/Django/Views/Columns.antt =====
-- `_model_has_field`: whether a model has a column.
use Prim.Native.Char.{code}
use Prim.Native.String.{[], ◌∷◌}
use netix_backend.Prelude.{
  ◌==◌, Bool, false, ◌&&◌, ◌||◌, Option, none, some, String, str_eq, if◌then◌else◌,
}

-- What is asked of a model: whether `_meta.get_field` knows a name; `none` is no `_meta`.
abbrev pub Meta : Type 0
Meta = Option (String → Bool)

-- name.split("__", 1)[0]
unfoldable pub first_segment : String → String
first_segment [] = []
first_segment (c ∷ []) = c ∷ []
first_segment (c ∷ d ∷ s) =
    let rest = first_segment (d ∷ s) in if code c == b'_' && code d == b'_' then [] else c ∷ rest

-- name[:-3] of a name that ends in "_id".
unfoldable pub without_id : String → Option String
without_id [] = none
without_id (c ∷ s) =
    let rest = without_id s in
    if str_eq (c ∷ s) "_id" then some [] else elim rest [ none ↦ none | some t ↦ some (c ∷ t) ]

abbrev pub known : (String → Bool) → Option String → Bool
known has_field none = false
known has_field (some name) = has_field name

unfoldable pub model_has_field : Meta → String → Bool
model_has_field none field_name = false
model_has_field (some has_field) field_name =
    let name = first_segment field_name in has_field name || known has_field (without_id name)
