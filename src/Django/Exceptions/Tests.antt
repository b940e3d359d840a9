-- ===== src/Django/Exceptions/Tests.antt =====
-- Payloads, their messages, and the envelope around them.

use netix_backend.Prelude.{ℕ, ◌≡◌, ◌⊎◌, refl, false, List, [], ◌∷◌, none, some, String, ok, err}
use netix_backend.Prelude.Dict.{get}
use netix_backend.Text.Show.{show_int}
use netix_backend.Text.Digits.{digits_before, show_before, digit_char}
use netix_backend.Django.Exceptions.{
  Detail, text, null, sequence, collection, mapping, nil, cons, end, entry, flatten_template,
  flatten_keyed, flatten_first_error, flatten_nested, flatten_sequence, message_entries,
  first_error, first_item, first_of_each, iter_messages_from_mapping, messages_from_entry,
  flatten_items, key_values, key_first_errors,
}
use netix_backend.Django.Exceptions.Messages
use netix_backend.Django.Exceptions.Messages.{
  Kind, validation_error, database_error, other_error, http404, Raised, Settings, unknown_flattener,
  by_setting, build_messages, resolve_flattener, detail_messages, iter_consistent_messages,
  iter_entries, iter_items, consistent_messages, detail_of,
}
use netix_backend.Django.Exceptions.Handler.{
  Wire, Response, custom_exception_handler, render_messages, as_list_for,
}
use netix_backend.Django.Exceptions.Located.{messages_shown}
use netix_backend.Django.Exceptions.Consistent.{
  leaves, IsPlain, located, consistent_messages-located,
}
use netix_backend.Django.Exceptions.Counted.{custom_exception_handler-answers}

abbrev shown : Detail → String
shown d = "<...>"

abbrev shown_list : List String → String
shown_list ss = "[...]"

-- {"name": ["short", None], "lines": [{"qty": "not a number"}], "detail": "no"}
abbrev payload : Detail
payload = mapping (
    entry "name" (sequence (cons (text "short") (cons null nil))) (
      entry "lines" (sequence (cons (mapping (entry "qty" (text "not a number") end)) nil))
        (entry "detail" (text "no") end)))

-- {"detail": ["one", {"message": "two"}]}
abbrev generic : Detail
generic = mapping (
    entry "detail"
      (sequence (cons (text "one") (cons (mapping (entry "message" (text "two") end)) nil))) end)

abbrev invalid : Raised
invalid = record {
  kind = validation_error;
  args = payload ∷ text "a" ∷ [];
  detail = some payload;
  message = none;
  described = "";
}

abbrev denied : Raised
denied = record {
  kind = other_error;
  args = [];
  detail = some generic;
  message = none;
  described = "denied";
}

abbrev unset : Settings
unset = record {
  flattener = none;
  stringified = none;
  http404_as_list = none;
  non_validation_as_list = none;
  consistent_envelope = none;
  db_unavailable_503 = none;
}

abbrev plain_response : Response ℕ
plain_response = record { status_code = 400; headers = []; body = 0 }

opened : Unit {0}
unfolding flatten_template flatten_keyed flatten_first_error flatten_nested flatten_sequence
    message_entries key_first_errors first_error first_item first_of_each iter_messages_from_mapping
    messages_from_entry flatten_items key_values Messages.key_values build_messages
    resolve_flattener detail_messages iter_consistent_messages iter_entries iter_items
    consistent_messages custom_exception_handler render_messages as_list_for get leaves IsPlain
    show_int show_before digits_before digit_char
opened = tt

consistent :
    consistent_messages shown invalid ≡ "name: short" ∷ "lines[0].qty: not a number" ∷ "no" ∷ []
unfolding opened
consistent = refl

keyed : flatten_keyed shown payload ≡ "name - <...>" ∷ "lines - <...>" ∷ "detail - no" ∷ []
unfolding opened
keyed = refl

firsts :
    flatten_first_error shown payload
    ≡ "name - short" ∷ "lines - qty: not a number" ∷ "detail - no" ∷ []
unfolding opened
firsts = refl

nested :
    flatten_nested shown payload ≡ "name: short" ∷ "name: None" ∷ "lines: <...>" ∷ "detail: no" ∷ []
unfolding opened
nested = refl

message_key :
    flatten_sequence shown (
      sequence (
        cons
          (mapping (entry "message" (collection (cons (text "x") (cons (text "y") nil))) end))
          (cons null nil)))
    ≡ "x" ∷ "None" ∷ []
unfolding opened
message_key = refl

misconfigured :
    build_messages shown (record unset { flattener = some "tree" }) invalid by_setting
    ≡ err (unknown_flattener "tree")
unfolding opened
misconfigured = refl

consistent_messages-located_example :
    consistent_messages shown invalid ≡ messages_shown "" (located shown (detail_of invalid))
consistent_messages-located_example = consistent_messages-located shown invalid (λ e. cc)

custom_exception_handler-answers_example :
    ((messages : Wire) × (custom_exception_handler shown shown_list unset invalid
          (some plain_response)
        ≡ ok (
          some (record {
            status_code = 400;
            headers = [];
            body = record { status_code = 400; messages = messages };
          }),
          [],
        )))
    ⊎ ((custom_exception_handler shown shown_list unset invalid (some plain_response)
          ≡ err (unknown_flattener "template"))
        × (false ≡ false)
        × (validation_error ≡ validation_error)
        × (get (Messages.flatteners shown) "template" ≡ none))
custom_exception_handler-answers_example =
    custom_exception_handler-answers shown shown_list unset invalid plain_response
