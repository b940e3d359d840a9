-- ===== src/Observability/SentryFilters/Candidates.antt =====
-- The texts of an event, and the walk along an exception's causes.
use mathlib.Core.Option
use Prim.Native.String
use Prim.Native.String.{[] as no_text}
use netix_backend.Prelude.{
  ℕ, zero, suc, ◌==◌, Bool, true, false, List, [], ◌∷◌, ◌++◌, Option, none, some, String, any,
  get_elem?, length,
}
use netix_backend.Prelude.Int.{ℤ}

-- An exception: the name of its type, its text, those of its classes, its `status_code` if that is
-- an integer, and the two exceptions behind it.
pub record Error : Type 0 where
  pub type_name : String
  pub text : String
  pub classes : List String
  pub status_code : Option ℤ
  pub cause : Option ℕ
  pub context : Option ℕ

-- The exceptions that exist; an identity is a place in the list.
abbrev pub Heap : Type 0
Heap = List Error

abbrev pub seen_before : List ℕ → ℕ → Bool
seen_before seen id = any (λ i. i == id) seen

abbrev pub behind : Error → Option ℕ
behind error = elim error.cause [ none ↦ error.context | some id ↦ some id ]

abbrev pub line_of : Error → String
line_of error = String.◌++◌ error.type_name (String.◌++◌ ": " error.text)

module _ (heap : Heap) where
  -- The loop; `none` is fuel that ran out.
  unfoldable pub chain_from : ℕ → List ℕ → Option ℕ → Option (List String)
  chain_from zero seen current = none
  chain_from (suc fuel) seen none = some []
  chain_from (suc fuel) seen (some id) = elim (get_elem? heap id) [
    | none ↦ some []
    | some error ↦ elim (seen_before seen id) [
      | true ↦ some []
      | false ↦
          Option.map (λ lines. line_of error ∷ lines) (chain_from fuel (id ∷ seen) (behind error))
    ]
  ]

  -- As many rounds as there are exceptions, and one to stop.
  unfoldable pub exception_chain_text : Option ℕ → Option (List String)
  exception_chain_text exc = chain_from (suc (length heap)) [] exc

-- One entry of `exception.values`.
pub record Serialized : Type 0 where
  pub type_name : Option String
  pub value : Option String

-- A {message, formatted} mapping; a key that is missing or empty is `none`.
pub record Entry : Type 0 where
  pub message : Option String
  pub formatted : Option String

pub data EventMessage : Type 0 where
  no_message : EventMessage
  plain_message : String → EventMessage
  mapping_message : Entry → EventMessage

abbrev pub text_of : Option String → List String
text_of none = []
text_of (some s) = s ∷ []

abbrev pub text_or_empty : Option String → String
text_or_empty none = ""
text_or_empty (some s) = s

abbrev pub serialized_text : Serialized → List String
serialized_text s = elim s.value [
  | none ↦ []
  | some value ↦ elim s.type_name [
    | none ↦ value ∷ []
    | some name ↦ String.◌++◌ name (String.◌++◌ ": " value) ∷ []
  ]
]

unfoldable pub serialized_texts : List Serialized → List String
serialized_texts [] = []
serialized_texts (s ∷ values) = serialized_text s ++ serialized_texts values

abbrev pub entry_texts : Entry → List String
entry_texts e = text_of e.message ++ text_of e.formatted

abbrev pub message_texts : EventMessage → List String
message_texts no_message = []
message_texts (plain_message s) = s ∷ []
message_texts (mapping_message e) = text_or_empty e.message ∷ text_or_empty e.formatted ∷ []
