-- ===== src/Django/Exceptions/Located.antt =====
-- How the consistent envelope of netix_backend/django/exceptions.py names the field of a message: by
-- the way to it, which the walk keeps as a text.
use Prim.Native.String
use netix_backend.Text.Show.{show_int}
use netix_backend.Prelude.Int.{pos}
use netix_backend.Prelude.{
  ap, Bool, true, not, ◌&&◌, ◌||◌, ℕ, ◌≡◌, inl, inr, refl, false, List, [], ◌∷◌, ◌++◌, String,
  str_eq, eq_iff, if◌then◌else◌, Bool-cases, arith,
}
use netix_backend.Django.Exceptions.{
  Detail, text, null, other, sequence, collection, mapping, joined,
}
use netix_backend.Django.Exceptions.Messages.{key_path, index_path, leaf_message}

-- The way from an error's details to one of their values: the keys and the indices, each index with
-- whether a dict, list or tuple stands there.
pub data Step : Type 0 where
  at_key : String → Step
  at_index : ℕ → (container : Bool) → Step

-- How a field is named by its way: by its keys with dots between, DRF's two generic ones left out;
-- and by the indices of containers in brackets, where they stand behind a key that names a field.
abbrev pub step_name : String → Step → String
step_name path (at_key key) =
    if str_eq key "detail" || str_eq key "message"
    then path
    else if str_eq path ""
    then key
    else joined path "." key
step_name path (at_index n container) =
    if container && not (str_eq path "")
    then String.◌++◌ path (joined "[" (show_int (pos n)) "]")
    else path

abbrev pub field_name : String → List Step → String
field_name path [] = path
field_name path (step ∷ steps) = field_name (step_name path step) steps

abbrev pub message_at : String → String → String
message_at path leaf = if str_eq path "" then leaf else joined path ": " leaf

-- The messages of located texts below a path; an empty text has none.
abbrev pub messages_shown : String → List (List Step × String) → List String
messages_shown path [] = []
messages_shown path ((steps, leaf) ∷ located) =
    let others = messages_shown path located in
    if str_eq leaf "" then others else message_at (field_name path steps) leaf ∷ others

abbrev pub below : Step → List (List Step × String) → List (List Step × String)
below step [] = []
below step ((steps, leaf) ∷ located) = (step ∷ steps, leaf) ∷ below step located

pub messages_shown-below :
    (path : String) (step : Step) (located : List (List Step × String))
    → messages_shown path (below step located) ≡ messages_shown (step_name path step) located
messages_shown-below path step [] = refl
messages_shown-below path step ((steps, leaf) ∷ located) =
    ap
      (λ others.
        if str_eq leaf ""
        then others
        else message_at (field_name (step_name path step) steps) leaf ∷ others)
      (messages_shown-below path step located)

pub messages_shown-append :
    (path : String) (xs ys : List (List Step × String))
    → messages_shown path (xs ++ ys) ≡ messages_shown path xs ++ messages_shown path ys
messages_shown-append path [] ys = refl
messages_shown-append path ((steps, leaf) ∷ xs) ys = elim (Bool-cases (str_eq leaf "")) [
  | inl empty ↦ rw empty (messages_shown-append path xs ys)
  | inr full ↦
      rw full
        (ap (λ l. message_at (field_name path steps) leaf ∷ l) (messages_shown-append path xs ys))
]

abbrev pub holds_values : Detail → Bool
holds_values (mapping es) = true
holds_values (sequence ds) = true
holds_values _ = false

pub leaf-messages_shown :
    (s path : String) → leaf_message s path ≡ messages_shown path (([], s) ∷ [])
leaf-messages_shown s path = ground arith

pub key-step : (path key : String) → key_path path key ≡ step_name path (at_key key)
key-step path key = ground (arith, eq_iff key "detail", eq_iff key "message")

pub index-step :
    (path : String) (n : ℕ) (d : Detail)
    → index_path path n d ≡ step_name path (at_index n (holds_values d))
index-step path n (mapping es) = ground arith
index-step path n (sequence ds) = ground arith
index-step path n null = ground arith
index-step path n (text s) = ground arith
index-step path n (other s t) = ground arith
index-step path n (collection ds) = ground arith
