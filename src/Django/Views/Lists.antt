-- ===== src/Django/Views/Lists.antt =====
-- views.py: `CreateListModelMixin`, `UpdateListModelMixin`, `AtomicWriteMixin` and
-- `write_permissions`.
pub mod Confined
pub mod Atomic
use netix_backend.Prelude.{
  ℕ, Bool, true, false, not, ◌&&◌, List, [], ◌∷◌, Option, none, some, String, if◌then◌else◌,
  contains, Result, ok, err, ◌>>=◌,
}
use netix_backend.Prelude.Dict.{Dict}
use netix_backend.Text.{lower}
use netix_backend.Django.Views.Identity.{ViewError, Scalar, action_in}
use netix_backend.Django.Views.WriteScope.{
  View, Serializer, Write, WriteData, many, one, perform_create, perform_update,
}

unfoldable pub write_permissions : String → Dict String
write_permissions codename =
    ("create", codename)
    ∷ ("update", codename)
    ∷ ("partial_update", codename)
    ∷ ("destroy", codename)
    ∷ []

-- A row that `get_object` gives: its owner, and whether it carries a prefetch cache.
pub record Instance : Type 0 where
  pub owner : Option Scalar
  pub prefetched : Bool

-- DRF below the mixins: `get_serializer` with an instance or none, a body and `partial`, what
-- `is_valid` raises, and `get_object`.
pub record Framework : Type 0 where
  pub get_serializer : Option Instance → WriteData → (partial : Bool) → Serializer
  pub is_valid : Serializer → Result ViewError (Unit {0})
  pub get_object : Result ViewError Instance

-- A response, with the write behind it and the row that was read for it.
pub record Done : Type 0 where
  pub status : ℕ
  pub write : Write
  pub instance' : Option Instance

abbrev pub done : ℕ → Option Instance → Write → Result ViewError Done
done status instance' write = ok record { status = status; write = write; instance' = instance' }

unfoldable pub create : Framework → View → WriteData → Result ViewError Done
create f v data' =
    let s = f.get_serializer none data' false in
    f.is_valid s >>= λ _. perform_create v s >>= done 201 none

-- Validated and saved, with the serializer of either branch.
unfoldable pub save_valid : Framework → View → Option Instance → Serializer → Result ViewError Done
save_valid f v instance' s = f.is_valid s >>= λ _. perform_update v s >>= done 200 instance'

-- A list is updated without a row; the prefetch cache of a row does not survive the write.
unfoldable pub update : Framework → View → (partial : Bool) → WriteData → Result ViewError Done
update f v partial (many rows) = save_valid f v none (f.get_serializer none (many rows) false)
update f v partial (one row) = f.get_object >>= λ instance'.
    save_valid f v (some record instance' { prefetched = false })
      (f.get_serializer (some instance') (one row) partial)

-- A handler over the database's state.
abbrev pub Handler : Type 0 → Type 0 → Type 0
Handler S A = S → Result ViewError A × S

-- A handler of the view: what it is, and whether it is a coroutine.
pub record Method (S A : Type 0) : Type 0 where
  pub handler : Handler S A
  pub is_coroutine : Bool

-- What a request runs: `atomic` is `transaction.atomic`, and `refuse` is what DRF does with a
-- method that the view has no handler of.
abbrev pub wrapped :
    {S A : Type 0}
    → (Handler S A → Handler S A)
    → Handler S A
    → Bool
    → Option (Method S A)
    → Handler S A
wrapped atomic refuse is_atomic none = refuse
wrapped atomic refuse is_atomic (some method) =
    if is_atomic && not method.is_coroutine then atomic method.handler else method.handler

abbrev pub atomic_actions : List String
atomic_actions = "create" ∷ "update" ∷ "partial_update" ∷ "destroy" ∷ []

unfoldable pub dispatch :
    {S A : Type 0}
    → (Handler S A → Handler S A)
    → Handler S A
    → List String
    → (String → Option String)
    → (String → Option (Method S A))
    → String
    → Handler S A
dispatch atomic refuse actions action_map handler method =
    wrapped atomic refuse (action_in actions (action_map (lower method))) (handler (lower method))
