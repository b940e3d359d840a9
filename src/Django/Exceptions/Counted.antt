-- ===== src/Django/Exceptions/Counted.antt =====
-- The default flattener's count, and the envelope that the handler puts around the messages.
use netix_backend.Prelude.{
  ◌≡◌, ◌⊎◌, inl, inr, refl, ◌∙◌, false, List, [], ◌∷◌, none, some, String, length, length-append,
  Bool-cases, Option-cases, ok, err, arith,
}
use netix_backend.Prelude.Dict.{get}
use netix_backend.Env.{or_default}
use netix_backend.Django.Exceptions.{
  Detail, text, null, other, sequence, collection, mapping, flatten_template,
}
use netix_backend.Django.Exceptions.Messages.{
  Kind, validation_error, http404, database_error, other_error, Raised, Settings, unknown_flattener,
  by_setting, flatteners, flatten_all, resolve_flattener, build_messages, detail_messages,
  detail_of, http404_message, consistent_messages,
}
use netix_backend.Django.Exceptions.Handler.{
  Wire, many, render_messages, as_list_for, Response, custom_exception_handler, is_consistent,
}

module _ (repr : Detail → String) where
  flatten_template_one : (d : Detail) → length (flatten_template repr d) ≡ 1
  unfolding flatten_template
  flatten_template_one (text s) = refl
  flatten_template_one (mapping es) = ground (arith)
  flatten_template_one null = refl
  flatten_template_one (other s t) = refl
  flatten_template_one (sequence ds) = refl
  flatten_template_one (collection ds) = refl

  flatten_all_count :
      (ds : List Detail) → length (flatten_all (flatten_template repr) ds) ≡ length ds
  flatten_all_count [] = refl
  flatten_all_count (d ∷ ds) =
      length-append (flatten_template repr d) (flatten_all (flatten_template repr) ds)
      ∙ omega (arith, flatten_template_one d, flatten_all_count ds)

  -- Without a flattener in the settings, a validation error has one message for each of its
  -- arguments, however many messages an argument holds.
  pub build_messages-length :
      (settings : Settings) (exc : Raised)
      → settings.flattener ≡ none
      → exc.kind ≡ validation_error
      → (messages : List String) × (build_messages repr settings exc by_setting ≡ ok messages)
        × (length messages ≡ length exc.args)
  unfolding build_messages resolve_flattener get
  build_messages-length settings exc unset kind = (
    flatten_all (flatten_template repr) exc.args,
    rw kind (rw unset refl),
    flatten_all_count exc.args,
  )

  abbrev flattener_name : Settings → String
  flattener_name settings = or_default "template" settings.flattener

  abbrev Builds : Settings → Raised → Type 0
  Builds settings exc =
      ((messages : List String) × (build_messages repr settings exc by_setting ≡ ok messages))
      ⊎ ((build_messages repr settings exc by_setting
            ≡ err (unknown_flattener (flattener_name settings)))
          × (exc.kind ≡ validation_error)
          × (get (flatteners repr) (flattener_name settings) ≡ none))

  build_messages-cases : (settings : Settings) (exc : Raised) → Builds settings exc
  unfolding build_messages resolve_flattener
  build_messages-cases settings exc = by_kind exc.kind refl
    where
      by_kind : (k : Kind) → exc.kind ≡ k → Builds settings exc
      by_kind validation_error e =
          elim (Option-cases (get (flatteners repr) (flattener_name settings))) [
            | inl missing ↦ inr (rw e (rw missing refl), e, missing)
            | inr (f, found) ↦ inl (flatten_all f exc.args, rw e (rw found refl))
          ]
      by_kind http404 e = inl (http404_message ∷ [], rw e refl)
      by_kind database_error e = inl (detail_messages repr (detail_of exc), rw e refl)
      by_kind other_error e = inl (detail_messages repr (detail_of exc), rw e refl)

  module _ (repr_list : List String → String) {D : Type 0} (settings : Settings) (exc : Raised)
      (response : Response D) where
    -- What DRF answers keeps its status and headers, and the status is also the body's; no line is
    -- logged. The handler fails only for a validation error, outside the consistent envelope,
    -- under a flattener's name that is not known.
    pub custom_exception_handler-answers :
        ((messages : Wire) × (custom_exception_handler repr repr_list settings exc (some response)
            ≡ ok (
              some (record {
                status_code = response.status_code;
                headers = response.headers;
                body = record { status_code = response.status_code; messages = messages };
              }),
              [],
            )))
        ⊎ ((custom_exception_handler repr repr_list settings exc (some response)
              ≡ err (unknown_flattener (flattener_name settings)))
            × (is_consistent repr repr_list settings ≡ false)
            × (exc.kind ≡ validation_error)
            × (get (flatteners repr) (flattener_name settings) ≡ none))
    unfolding custom_exception_handler
    custom_exception_handler-answers = elim (Bool-cases (is_consistent repr repr_list settings)) [
      | inl open_envelope ↦ inl (many (consistent_messages repr exc), rw open_envelope refl)
      | inr plain ↦ elim (build_messages-cases settings exc) [
        | inl (messages, e) ↦ inl (
          render_messages repr repr_list settings messages none
              (as_list_for repr repr_list settings exc),
          rw plain (rw e refl),
        )
        | inr (e, kind, missing) ↦ inr (rw plain (rw e refl), plain, kind, missing)
      ]
    ]
