-- ===== src/Django/Views/SoftDelete.antt =====
-- `SoftDeleteMixin` and the mapping of list errors in views.py.
use netix_backend.Prelude.{
  ℕ, ◌≡◌, Bool, true, false, ◌&&◌, List, [], ◌∷◌, Option, none, some, String, if◌then◌else◌, Result,
  ok, err, ◌>>=◌,
}
use netix_backend.Django.Views.Identity.{ViewError, http_404}
use netix_backend.Django.Views.Columns.{Meta, model_has_field}

-- The class attributes of `SoftDeleteMixin`.
pub record SoftDelete : Type 0 where
  pub soft_delete_field : String
  pub soft_delete_404_on_repeat : Bool
  pub soft_delete_validate : Bool

-- A row: its flag, its model, its own `validate_soft_delete` and `soft_delete` where it has them.
pub record Row : Type 0 where
  pub is_deleted : Bool
  pub meta : Meta
  pub validate_soft_delete : Option (Result ViewError (Unit {0}))
  pub soft_delete : Option (Result ViewError (Unit {0}))

-- What retires the row: its model's own method, or a save of these fields with the flag set.
pub data Retired : Type 0 where
  by_model : Retired
  by_save : (update_fields : List String) → Retired

unfoldable pub soft_delete_update_fields : SoftDelete → Row → List String
soft_delete_update_fields d r =
    d.soft_delete_field ∷ (if model_has_field r.meta "updated_on" then "updated_on" ∷ [] else [])

abbrev pub validated : Bool → Option (Result ViewError (Unit {0})) → Result ViewError (Unit {0})
validated true (some verdict) = verdict
validated _ _ = ok tt

abbrev pub retired :
    SoftDelete → Row → Option (Result ViewError (Unit {0})) → Result ViewError Retired
retired d r none = ok (by_save (soft_delete_update_fields d r))
retired d r (some outcome) = outcome >>= λ _. ok by_model

unfoldable pub soft_delete_instance : SoftDelete → Row → Result ViewError Retired
soft_delete_instance d r =
    if d.soft_delete_404_on_repeat && r.is_deleted
    then err http_404
    else (validated d.soft_delete_validate r.validate_soft_delete >>= λ _.
        retired d r r.soft_delete)

pub data Answer : Type 0 where
  status : ℕ → Answer
  raised : ViewError → Answer

abbrev pub answer_for : (consistent_envelope : Bool) → Result ViewError Retired → Answer
answer_for consistent_envelope (ok how) = status 204
answer_for true (err http_404) = raised http_404
answer_for false (err http_404) = status 404
answer_for consistent_envelope (err e) = raised e

-- `destroy`, with what `get_object` gives and the `NETIX_ERRORS_CONSISTENT_ENVELOPE` setting.
unfoldable pub destroy : SoftDelete → Bool → Result ViewError Row → Answer
destroy d consistent_envelope object =
    answer_for consistent_envelope (object >>= soft_delete_instance d)

-- A rule of `list_error_map`: whether it covers an error (its type and its predicate), and the
-- message that it gives.
abbrev pub ListErrorRule : Type 0 → Type 0
ListErrorRule E = (E → Bool) × String

-- What `_mapped_list_errors` raises: a 400 with the first rule's message, or the error itself.
pub data Mapped (E : Type 0) : Type 0 where
  invalid : String → Mapped E
  passed : E → Mapped E

unfoldable pub mapped_list_error : {E : Type 0} → List (ListErrorRule E) → E → Mapped E
mapped_list_error [] error = passed error
mapped_list_error ((covers, message) ∷ rules) error =
    if covers error then invalid message else mapped_list_error rules error

-- A row that is retired already is never retired again where repeats are refused: the answer is a
-- 404, or the exception where the envelope is consistent.
pub destroy_repeat :
    (d : SoftDelete) (envelope : Bool) (r : Row)
    → d.soft_delete_404_on_repeat ≡ true
    → r.is_deleted ≡ true
    → destroy d envelope (ok r) ≡ (if envelope then raised http_404 else status 404)
unfolding destroy soft_delete_instance
destroy_repeat d true r repeat gone = simp (repeat, gone)
destroy_repeat d false r repeat gone = simp (repeat, gone)
