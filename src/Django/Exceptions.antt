-- ===== src/Django/Exceptions.antt =====
-- netix_backend/django/exceptions.py: error details, and the flatteners that turn them into messages.
pub mod Messages
pub mod Handler
pub mod Consistent
pub mod Located
pub mod Counted
mod Tests
use Prim.Native.String
use netix_backend.Prelude.{
  ℕ, ◌≡◌, Bool, true, false, not, List, [], ◌∷◌, ◌++◌, map, take, Option, none, some, String,
  str_eq, if◌then◌else◌,
}

-- A payload of an error. `sequence` is a list or a tuple, `collection` a set in the order of its
-- iteration; `other` is any other object, by its `str` and its truth. A key of a dict is its `str`.
mutual
  pub data Detail : Type 0 where
    text : String → Detail
    null : Detail
    other : String → Bool → Detail
    sequence : Items → Detail
    collection : Items → Detail
    mapping : Entries → Detail

  pub data Items : Type 0 where
    nil : Items
    cons : Detail → Items → Items

  pub data Entries : Type 0 where
    end : Entries
    entry : String → Detail → Entries → Entries

-- f"{key}{separator}{value}"
abbrev pub joined : String → String → String → String
joined key separator value = String.◌++◌ key (String.◌++◌ separator value)

abbrev some_items : Items → Bool
some_items nil = false
some_items (cons d ds) = true

abbrev pub is_true : Detail → Bool
is_true (text s) = not (str_eq s "")
is_true null = false
is_true (other s t) = t
is_true (sequence ds) = some_items ds
is_true (collection ds) = some_items ds
is_true (mapping end) = false
is_true (mapping (entry k d es)) = true

-- payload.get(key); a key stands once.
abbrev pub find : Entries → String → Option Detail
find end k = none
find (entry j d es) k = if str_eq j k then some d else find es k

-- `repr` is the `str` of a list, tuple, set or dict.
module _ (repr : Detail → String) where
  abbrev pub str : Detail → String
  str (text s) = s
  str null = "None"
  str (other s t) = s
  str d = repr d

  abbrev pub str_items : Items → List String
  str_items nil = []
  str_items (cons d ds) = str d ∷ str_items ds

  abbrev entries_of : Detail → List String
  entries_of (sequence ds) = str_items ds
  entries_of (collection ds) = str_items ds
  entries_of d = str d ∷ []

  abbrev entries_if_true : Option Detail → Option (List String)
  entries_if_true none = none
  entries_if_true (some d) = if is_true d then some (entries_of d) else none

  unfoldable pub message_entries : Entries → Option (List String)
  message_entries payload = entries_if_true (find payload "message")

  -- `if entries:`
  abbrev either : Option (List String) → (List String → List String) → List String → List String
  either none found missing = missing
  either (some []) found missing = missing
  either (some (s ∷ ss)) found missing = found (s ∷ ss)

  abbrev first_only : List String → List String
  first_only = take 1

  unfoldable pub flatten_template : Detail → List String
  flatten_template (text s) = s ∷ []
  flatten_template (mapping es) = either (message_entries es) first_only (str (mapping es) ∷ [])
  flatten_template d = str d ∷ []

  unfoldable pub key_values : Entries → List String
  key_values end = []
  key_values (entry k d es) = joined k " - " (str d) ∷ key_values es

  unfoldable pub flatten_keyed : Detail → List String
  flatten_keyed (text s) = s ∷ []
  flatten_keyed (mapping es) = either (message_entries es) (λ ss. ss) (key_values es)
  flatten_keyed d = str d ∷ []

  unfoldable mutual
    pub first_error : Detail → String
    first_error (sequence ds) = first_item ds
    first_error (mapping es) = first_of_each es
    first_error (text s) = s
    first_error null = "None"
    first_error (other s t) = s
    first_error (collection ds) = repr (collection ds)

    pub first_item : Items → String
    first_item nil = ""
    first_item (cons d ds) = first_error d

    -- ", ".join over the entries
    pub first_of_each : Entries → String
    first_of_each end = ""
    first_of_each (entry k d end) = joined k ": " (first_error d)
    first_of_each (entry k d (entry j e es)) =
        joined (joined k ": " (first_error d)) ", " (first_of_each (entry j e es))

  unfoldable pub key_first_errors : Entries → List String
  key_first_errors end = []
  key_first_errors (entry k d es) = joined k " - " (first_error d) ∷ key_first_errors es

  unfoldable pub flatten_first_error : Detail → List String
  flatten_first_error (text s) = s ∷ []
  flatten_first_error (mapping es) = either (message_entries es) first_only (key_first_errors es)
  flatten_first_error d = str d ∷ []

  abbrev key_items : String → Items → List String
  key_items k nil = []
  key_items k (cons d ds) = joined k ": " (str d) ∷ key_items k ds

  -- The key of a nested dict is left out of its messages.
  unfoldable mutual
    pub iter_messages_from_mapping : Entries → List String
    iter_messages_from_mapping end = []
    iter_messages_from_mapping (entry k d es) =
        messages_from_entry k d ++ iter_messages_from_mapping es

    pub messages_from_entry : String → Detail → List String
    messages_from_entry k (sequence ds) = key_items k ds
    messages_from_entry k (collection ds) = key_items k ds
    messages_from_entry k (mapping es) = iter_messages_from_mapping es
    messages_from_entry k (text s) = joined k ": " s ∷ []
    messages_from_entry k null = joined k ": " "None" ∷ []
    messages_from_entry k (other s t) = joined k ": " s ∷ []

  unfoldable pub flatten_nested : Detail → List String
  flatten_nested (text s) = s ∷ []
  flatten_nested (mapping es) = iter_messages_from_mapping es
  flatten_nested d = str d ∷ []

  unfoldable mutual
    pub flatten_sequence : Detail → List String
    flatten_sequence (text s) = s ∷ []
    flatten_sequence (mapping es) = either (message_entries es) first_only (repr (mapping es) ∷ [])
    flatten_sequence (sequence ds) = flatten_items ds
    flatten_sequence (collection ds) = flatten_items ds
    flatten_sequence null = "None" ∷ []
    flatten_sequence (other s t) = s ∷ []

    pub flatten_items : Items → List String
    flatten_items nil = []
    flatten_items (cons d ds) = flatten_sequence d ++ flatten_items ds
