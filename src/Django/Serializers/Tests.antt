-- ===== src/Django/Serializers/Tests.antt =====
-- A stated reason on its way to the trail.
use netix_backend.Prelude.{
  ◌≡◌, refl, Bool, true, false, [], ◌∷◌, Option, none, some, String, ok, str_eq, if◌then◌else◌,
}
use netix_backend.Prelude.Int.{pos}
use netix_backend.Prelude.Dict.{Dict, get, set, pop}
use netix_backend.Text.{strip, lstrip, rstrip, is_space, lower}
use netix_backend.Django.ChangeHistory.Actor.{
  ChangeActor, Context, get_actor, set_actor, reset_actor, reason_context, normalize_reason,
  take_text, history_requested,
}
use netix_backend.Django.Serializers.{
  Serializer, init, validate, save, to_representation, reason_field,
}
use netix_backend.Django.Serializers.Reason.{with_reason, report, validate-save}

abbrev actor : ChangeActor
actor = record { user_id = some (pos 7); name = "Ada"; source = "api"; reason = "" }

abbrev here : Context
here = record { id = 1; actor = some actor }

abbrev fields : Dict Bool
fields = ("id", true) ∷ ("change_history", true) ∷ []

abbrev plain : Serializer Bool
plain = record { fields = ("id", true) ∷ []; change_reason = none }

abbrev attrs : Dict String
attrs = ("name", "x") ∷ ("change_reason", " typo ") ∷ []

abbrev kept : Dict String
kept = ("name", "x") ∷ []

abbrev validated : Serializer Bool
validated = record plain { change_reason = some " typo " }

abbrev wants : Option (String → Option String)
wants = some (λ name. if str_eq name "include_history" then some "true" else none)

opened : Unit {0}
unfolding get set pop strip lstrip rstrip is_space lower get_actor set_actor reset_actor
    reason_context normalize_reason take_text history_requested init validate save to_representation
opened = tt

dropped : init fields false none ≡ plain
unfolding opened
dropped = refl

asked_for : (init fields false wants).fields ≡ fields
unfolding opened
asked_for = refl

taken : validate {E = String} (λ d. ok d) (λ v. v) plain attrs ≡ ok (validated, ("name", "x") ∷ [])
unfolding opened
taken = refl

saved : save validated report here ≡ (record actor { reason = "typo" }, here)
unfolding opened
saved = refl

validate-save_example :
    (get kept reason_field ≡ none)
    × (get kept "name" ≡ get attrs "name")
    × (save validated report here ≡ (with_reason (get_actor here) " typo ", here))
unfolding opened
validate-save_example =
    validate-save {E = String} (λ d. ok d) (λ v. v) plain validated attrs attrs kept here "name"
      (λ e. cc) refl taken
