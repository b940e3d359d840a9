-- ===== src/Django/ChangeHistory/Actor.antt =====
-- The actor that a change is attributed to, in the context variable `change_history_actor`.
use Prim.Native.String.{[], ◌∷◌}
use netix_backend.Prelude.{
  ℕ, zero, suc, ◌==◌, Bool, false, Option, none, some, String, str_eq, if◌then◌else◌, contains,
}
use netix_backend.Prelude.Int.{ℤ}
use netix_backend.Text.{strip, lower}
use netix_backend.Env.{truthy}

abbrev pub max_reason_length : ℕ
max_reason_length = 256

abbrev pub source_api : String
source_api = "api"

abbrev pub source_system : String
source_system = "system"

-- text[:n]
unfoldable pub take_text : ℕ → String → String
take_text zero s = []
take_text (suc n) [] = []
take_text (suc n) (c ∷ s) = c ∷ take_text n s

-- `none` is a reason of None.
unfoldable pub normalize_reason : Option String → String
normalize_reason none = ""
normalize_reason (some reason) =
    if str_eq reason "" then "" else take_text max_reason_length (strip reason)

pub record ChangeActor : Type 0 where
  pub user_id : Option ℤ
  pub name : String
  pub source : String
  pub reason : String

abbrev pub anonymous : ChangeActor
anonymous = record { user_id = none; name = ""; source = source_system; reason = "" }

-- What `from_user` reads of a user: `pk` if it is an integer, `get_full_name()` if the user has it,
-- and `username`; a missing or false text is "".
pub record User : Type 0 where
  pub int_pk : Option ℤ
  pub full_name : Option String
  pub username : String

abbrev pub full_name_or_empty : Option String → String
full_name_or_empty none = ""
full_name_or_empty (some s) = strip s

unfoldable pub from_user : User → String → Option String → ChangeActor
from_user user source reason =
    let name = full_name_or_empty user.full_name in
    record {
      user_id = user.int_pk;
      name = if str_eq name "" then user.username else name;
      source = source;
      reason = normalize_reason reason;
    }

-- A thread's or a task's own value of the variable.
pub record Context : Type 0 where
  pub id : ℕ
  pub actor : Option ChangeActor

-- What `set` returns: the context that it was made in, and the value before.
pub record Token : Type 0 where
  pub context : ℕ
  pub old : Option ChangeActor

unfoldable pub get_actor : Context → ChangeActor
get_actor c = elim c.actor [ none ↦ anonymous | some actor ↦ actor ]

unfoldable pub set_actor : Option ChangeActor → Context → Token × Context
set_actor actor c = (record { context = c.id; old = c.actor }, record c { actor = actor })

-- A token of another context is a ValueError, and the variable is cleared instead.
unfoldable pub reset_actor : Option Token → Context → Context
reset_actor none c = record c { actor = none }
reset_actor (some token) c =
    if token.context == c.id then record c { actor = token.old } else record c { actor = none }

-- `with …:` around a block, which may raise: its result `R` holds the exception, if any.
abbrev pub bracket {ℓ} :
    {R : Type ℓ} → ChangeActor → (Context → R × Context) → Context → R × Context
bracket actor body c =
    let (token, bound) = set_actor (some actor) c in
    let (result, after) = body bound in (result, reset_actor (some token) after)

abbrev pub actor_for : Option User → String → Option String → ChangeActor
actor_for none source reason = record {
  user_id = none;
  name = "";
  source = source;
  reason = normalize_reason reason;
}
actor_for (some user) source reason = from_user user source reason

unfoldable pub actor_context {ℓ} :
    {R : Type ℓ}
    → Option User
    → String
    → Option String
    → (Context → R × Context)
    → Context
    → R × Context
actor_context user source reason body c = bracket (actor_for user source reason) body c

unfoldable pub reason_context {ℓ} :
    {R : Type ℓ} → Option String → (Context → R × Context) → Context → R × Context
reason_context reason body c =
    bracket (record (get_actor c) { reason = normalize_reason reason }) body c

-- The middleware, with the actor that `resolve_actor` gives for the request.
unfoldable pub middleware {ℓ} :
    {R : Type ℓ} → Option ChangeActor → (Context → R × Context) → Context → R × Context
middleware resolved get_response c =
    let (token, bound) = set_actor resolved c in
    let (response, after) = get_response bound in (response, reset_actor (some token) after)

-- The parameters of a request, `none` where there is no request or it has none.
unfoldable pub reason_from_query : Option (String → Option String) → String
reason_from_query none = ""
reason_from_query (some params) = normalize_reason (params "change_reason")

abbrev or_empty : Option String → String
or_empty none = ""
or_empty (some s) = s

unfoldable pub history_requested : Option (String → Option String) → Bool
history_requested none = false
history_requested (some params) =
    contains truthy (lower (strip (or_empty (params "include_history"))))
