-- ===== src/Django/Serializers/Reason.antt =====
-- Where a stated reason goes, and who sees the trail.
use netix_backend.Prelude.{
  ◌≡◌, ◌≢◌, refl, sym, ap, subst, ◌∙◌, false, Option, none, some, String, str_eq, if◌then◌else◌,
  Result, ok, ok_inj, Bool-cases, inl, inr, str_eq_of_ne,
}
use netix_backend.Prelude.Dict.{Dict, get, pop, get-pop}
use netix_backend.Django.ChangeHistory.Actor.{
  ChangeActor, Context, get_actor, normalize_reason, history_requested,
}
use netix_backend.Django.ChangeHistory.Scopes.{reason_context_lem}
use netix_backend.Django.Serializers.{
  Serializer, validate, save, save_with, or_empty, to_representation, reason_field, history_field,
}

-- The actor of a save with a reason.
abbrev pub with_reason : ChangeActor → String → ChangeActor
with_reason actor reason =
    if str_eq reason "" then actor else record actor { reason = normalize_reason (some reason) }

-- A save that reports the actor it runs under.
abbrev pub report : Context → ChangeActor × Context
report c = (get_actor c, c)

save_with-report :
    (reason : String) (c : Context)
    → save_with reason report c ≡ (with_reason (get_actor c) reason, c)
unfolding get_actor
save_with-report reason c = elim (Bool-cases (str_eq reason "")) [
  | inl none_stated ↦ rw none_stated refl
  | inr given ↦ rw given (reason_context_lem (some reason) report c (λ d. refl))
]

-- The reason that a caller states is taken out of the data for the model, which keeps every other
-- value; the save then runs under the actor that was bound with that reason, cleaned up, or with
-- its own if none is stated, and leaves the actor bound as it was.
pub validate-save :
    {A V E : Type 0} (super_validate : Dict V → Result E (Dict V)) (as_text : V → String)
    (s s' : Serializer A) (attrs after validated : Dict V) (c : Context) (key : String)
    → key ≢ reason_field
    → super_validate attrs ≡ ok after
    → validate super_validate as_text s attrs ≡ ok (s', validated)
    → (get validated reason_field ≡ none)
      × (get validated key ≡ get after key)
      × (save s' report c
          ≡ (with_reason (get_actor c) (or_empty as_text (get after reason_field)), c))
unfolding validate save
validate-save super_validate as_text s s' attrs after validated c key other below e =
    let done = ok_inj (rw below at e) in
    let attrs_are : pop after reason_field ≡ validated = ap (λ p. p.1) done in
    let serializer_is = ap (λ p. p.0) done in
    (
      subst (λ d. get d reason_field ≡ none) attrs_are (get-pop after reason_field reason_field),
      subst (λ d. get d key ≡ get after key) attrs_are
          (get-pop after reason_field key
            ∙ rw (str_eq_of_ne reason_field key (λ same. other (sym same))) refl),
      subst
          (λ x.
            save x report c
            ≡ (with_reason (get_actor c) (or_empty as_text (get after reason_field)), c))
          serializer_is (save_with-report (or_empty as_text (get after reason_field)) c),
    )

-- The trail is shown to nobody who did not ask for it, also where the documentation's view keeps
-- its field; a request without it leaves every other part of the representation alone.
pub to_representation-history :
    {A V : Type 0} (representation : Dict A → Dict V) (s : Serializer A)
    (params : Option (String → Option String)) (key : String)
    → key ≢ history_field
    → history_requested params ≡ false
    → (get (to_representation representation s params) history_field ≡ none)
      × (get (to_representation representation s params) key ≡ get (representation s.fields) key)
unfolding to_representation
to_representation-history representation s params key other h = rw h (
  get-pop (representation s.fields) history_field history_field,
  get-pop (representation s.fields) history_field key
      ∙ rw (str_eq_of_ne history_field key (λ same. other (sym same))) refl,
)
