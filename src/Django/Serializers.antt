-- ===== src/Django/Serializers.antt =====
-- netix_backend/django/serializers.py: the mixin that shows a trail and takes a change's reason.
mod Reason
mod Tests
use netix_backend.Prelude.{
  Bool, true, false, not, ◌||◌, List, [], ◌∷◌, ◌++◌, Option, none, some, String, str_eq,
  if◌then◌else◌, Result, ok, ◌>>=◌,
}
use netix_backend.Prelude.Dict.{Dict, get, pop}
use netix_backend.Django.ChangeHistory.Actor.{Context, reason_context, history_requested}

abbrev pub base_fields_constant : List String
base_fields_constant = "id" ∷ "created_on" ∷ "updated_on" ∷ []

abbrev pub named_base_fields_constant : List String
named_base_fields_constant =
    base_fields_constant ++ "name" ∷ "display_name" ∷ "description" ∷ "is_archived" ∷ []

abbrev pub base_fields : List String → List String
base_fields extra = base_fields_constant ++ extra

abbrev pub named_base_fields : List String → List String
named_base_fields extra = named_base_fields_constant ++ extra

abbrev pub reason_field : String
reason_field = "change_reason"

abbrev pub history_field : String
history_field = "change_history"

-- The declared fields by name, and the attribute `_change_reason`, which only `validate` sets.
pub record Serializer (A : Type 0) : Type 0 where
  pub fields : Dict A
  pub change_reason : Option String

-- `fields` are those that DRF has set up, `params` the request's parameters, if it has any.
unfoldable pub init :
    {A : Type 0}
    → Dict A
    → (swagger_fake_view : Bool) → Option (String → Option String)
    → Serializer A
init fields swagger_fake_view params = record {
  fields =
      if swagger_fake_view || history_requested params then fields else pop fields history_field;
  change_reason = none;
}

abbrev pub or_empty : {V : Type 0} → (V → String) → Option V → String
or_empty as_text none = ""
or_empty as_text (some v) = as_text v

-- `super_validate` is DRF's own, `as_text` reads what the CharField of the reason has validated.
unfoldable pub validate :
    {A V E : Type 0}
    → (Dict V → Result E (Dict V))
    → (V → String)
    → Serializer A
    → Dict V
    → Result E (Serializer A × Dict V)
validate super_validate as_text s attrs = super_validate attrs >>= λ after. ok (
  record s { change_reason = some (or_empty as_text (get after reason_field)) },
  pop after reason_field,
)

abbrev pub reason_of : {A : Type 0} → Serializer A → String
reason_of s = or_empty (λ r. r) s.change_reason

-- `super_save` is the save below, in the context of the running thread or task.
abbrev pub save_with : {R : Type 0} → String → (Context → R × Context) → Context → R × Context
save_with reason super_save c =
    if str_eq reason "" then super_save c else reason_context (some reason) super_save c

unfoldable pub save :
    {A R : Type 0} → Serializer A → (Context → R × Context) → Context → R × Context
save s super_save c = save_with (reason_of s) super_save c

-- `representation` is what DRF makes of the instance with the declared fields.
unfoldable pub to_representation :
    {A V : Type 0} → (Dict A → Dict V) → Serializer A → Option (String → Option String) → Dict V
to_representation representation s params =
    let shown = representation s.fields in
    if history_requested params then shown else pop shown history_field
