-- ===== src/Django/ChangeHistory/Scopes.antt =====
-- How long an actor stays bound, and what a reason keeps.
use Prim.Native.String.{[], ◌∷◌, count}
use text.Mathlib.TextLemmas.{length-cons}
use netix_backend.Prelude.{
  ℕ, zero, suc, ◌≤◌, ◌==◌, ◌≡◌, ◌≢◌, true, Option, none, some, String, str_eq, arith, Bool-cases,
  inl, inr,
}
use netix_backend.Text.{strip}
use netix_backend.Django.ChangeHistory.Actor.{
  ChangeActor, Context, Token, User, take_text, normalize_reason, max_reason_length, get_actor,
  set_actor, reset_actor, bracket, actor_for, actor_context, reason_context,
}

-- The block runs in the context that it was given, whatever it binds there.
abbrev pub KeepsContext {ℓ} : {R : Type ℓ} → (Context → R × Context) → Type 0
KeepsContext body = (c : Context) → (body c).1.id ≡ c.id

same_id : (n : ℕ) → (n == n) ≡ true
same_id n = ground arith

bracket_lem {ℓ} :
    {R : Type ℓ} (actor : ChangeActor) (body : Context → R × Context) (c : Context)
    → KeepsContext body
    → bracket actor body c ≡ ((body (record c { actor = some actor })).0, c)
unfolding set_actor reset_actor
bracket_lem actor body c keeps = rw (keeps (record c { actor = some actor })) (rw same_id)

-- The block runs with the actor of the arguments bound, its result is the call's, and the variable
-- is as before when it ends, also where the block itself bound or cleared it.
pub actor_context_lem {ℓ} :
    {R : Type ℓ} (user : Option User) (source : String) (reason : Option String)
    (body : Context → R × Context) (c : Context)
    → KeepsContext body
    → actor_context user source reason body c
      ≡ ((body (record c { actor = some (actor_for user source reason) })).0, c)
unfolding actor_context
actor_context_lem user source reason body c keeps =
    bracket_lem (actor_for user source reason) body c keeps

-- A reason is stated for the actor that is bound already: in the block only the reason differs, and
-- behind it nothing does.
pub reason_context_lem {ℓ} :
    {R : Type ℓ} (reason : Option String) (body : Context → R × Context) (c : Context)
    → KeepsContext body
    → reason_context reason body c ≡ (
      (body (record c {
        actor = some (record (get_actor c) { reason = normalize_reason reason });
      })).0,
      c,
    )
unfolding reason_context
reason_context_lem reason body c keeps =
    bracket_lem (record (get_actor c) { reason = normalize_reason reason }) body c keeps

-- A token of another context never restores its value: the variable is cleared.
pub reset_actor-foreign :
    (token : Token) (c : Context) → token.context ≢ c.id → (reset_actor (some token) c).actor ≡ none
unfolding reset_actor
reset_actor-foreign token c h = ground arith

count-take_text : (n : ℕ) (s : String) → count (take_text n s) ≤ n
unfolding take_text
count-take_text zero s = omega arith
count-take_text (suc n) [] = omega arith
count-take_text (suc n) (c ∷ s) = rw length-cons (omega (arith, count-take_text n s))

-- A reason is never longer than the column beside it.
pub count-normalize_reason :
    (reason : Option String) → count (normalize_reason reason) ≤ max_reason_length
unfolding normalize_reason
count-normalize_reason none = omega arith
count-normalize_reason (some reason) = elim (Bool-cases (str_eq reason "")) [
  | inl blank ↦ rw blank (omega arith)
  | inr stated ↦ rw stated (count-take_text max_reason_length (strip reason))
]
