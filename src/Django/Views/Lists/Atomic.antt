-- ===== src/Django/Views/Lists/Atomic.antt =====
-- views.py: what a write leaves behind where its handler raises.
use netix_backend.Prelude.{◌≡◌, Bool, true, false, List, Option, some, String, ok, err}
use netix_backend.Text.{lower}
use netix_backend.Django.Views.Identity.{ViewError, action_in}
use netix_backend.Django.Views.Lists.{Handler, Method, wrapped, dispatch}

-- The documented behaviour of `transaction.atomic`: a handler that raises leaves the database as it
-- was, and any other one is the handler itself.
pub record Atomic (S A : Type 0) : Type 0 where
  pub atomic : Handler S A → Handler S A
  pub rolls_back :
      (h : Handler S A) (s : S) (e : ViewError) → (h s).0 ≡ err e → atomic h s ≡ (err e, s)
  pub commits : (h : Handler S A) (s : S) (a : A) → (h s).0 ≡ ok a → atomic h s ≡ h s

wrapped_rolls_back :
    {S A : Type 0} (t : Atomic S A) (refuse : Handler S A) (is_atomic : Bool)
    (method : Option (Method S A)) (found : Method S A) (s : S) (e : ViewError)
    → method ≡ some found
    → found.is_coroutine ≡ false
    → is_atomic ≡ true
    → (found.handler s).0 ≡ err e
    → wrapped t.atomic refuse is_atomic method s ≡ (err e, s)
wrapped_rolls_back t refuse is_atomic method found s e h c a raises =
    rw (h, c, a) (t.rolls_back found.handler s e raises)

-- A request whose method maps to an atomic action, with a handler that is no coroutine, raises what
-- the handler raises and leaves the database as it was.
pub dispatch_rolls_back :
    {S A : Type 0} (t : Atomic S A) (refuse : Handler S A) (actions : List String)
    (action_map : String → Option String) (handler : String → Option (Method S A)) (method : String)
    (found : Method S A) (s : S) (e : ViewError)
    → handler (lower method) ≡ some found
    → found.is_coroutine ≡ false
    → action_in actions (action_map (lower method)) ≡ true
    → (found.handler s).0 ≡ err e
    → dispatch t.atomic refuse actions action_map handler method s ≡ (err e, s)
unfolding dispatch
dispatch_rolls_back t refuse actions action_map handler method found s e h c a raises =
    wrapped_rolls_back t refuse (action_in actions (action_map (lower method)))
      (handler (lower method)) found s e h c a raises
