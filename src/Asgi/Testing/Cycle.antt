-- ===== src/Asgi/Testing/Cycle.antt =====
-- netix_backend/asgi/testing.py: the HTTP cycle of uvicorn, and a client that hangs up.
use netix_backend.Prelude.{
  ℕ, ◌+◌, ◌≡◌, refl, Bool, true, false, List, [], ◌∷◌, ◌++◌, Option, none, some, arith,
  if◌then◌else◌, length,
}
use netix_backend.Asgi.Timeout.{Message, response_start, response_body, other_message}
use netix_backend.Asgi.Timeout.Soundness.{starts}

pub data Received : Type 0 where
  request disconnect : Received

pub record ServerCycle : Type 0 where
  pub message_event : Bool
  pub response_complete : Bool
  pub statuses : List ℕ

abbrev pub server_cycle : ServerCycle
server_cycle = record { message_event = true; response_complete = false; statuses = [] }

abbrev pub received : Bool → Received
received true = disconnect
received false = request

-- A receive that waits for the event, once it is set.
unfoldable pub woken : ServerCycle → Option (Received × ServerCycle)
woken c =
    if c.message_event
    then some (received c.response_complete, record c { message_event = false })
    else none

-- `none` is a receive that waits.
unfoldable pub receive : ServerCycle → Option (Received × ServerCycle)
receive c = if c.response_complete then some (disconnect, c) else woken c

-- The body of a reply comes whole, so any message but the start is the last one.
abbrev pub complete : ServerCycle → ServerCycle
complete c = record c { response_complete = true; message_event = true }

unfoldable pub send : Message → ServerCycle → ServerCycle
send (response_start status headers) c = record c { statuses = c.statuses ++ status ∷ [] }
send (response_body body) c = complete c
send (other_message kind) c = complete c

unfoldable pub send_all : List Message → ServerCycle → ServerCycle
send_all [] c = c
send_all (message ∷ messages) c = send_all messages (send message c)

-- A client that sends its request, then hangs up.
pub record HangUpCycle : Type 0 where
  pub after : ℕ
  pub requested : Bool

-- What the app receives, and after how long.
unfoldable pub receive_hang_up : HangUpCycle → Received × ℕ × HangUpCycle
receive_hang_up c =
    if c.requested then (disconnect, c.after, c) else (request, 0, record c { requested = true })

length-append : (xs : List ℕ) (y : ℕ) → length (xs ++ y ∷ []) ≡ length xs + 1
length-append [] y = refl
length-append (x ∷ xs) y = omega (arith, length-append xs y)

-- The cycle records one status for each response that is begun.
pub send_all-statuses :
    (messages : List Message) (c : ServerCycle)
    → length (send_all messages c).statuses ≡ length c.statuses + starts messages
unfolding send_all send
send_all-statuses [] c = omega arith
send_all-statuses (response_start status headers ∷ messages) c = omega (
  arith,
  send_all-statuses messages (send (response_start status headers) c),
  length-append c.statuses status,
)
send_all-statuses (response_body body ∷ messages) c = send_all-statuses messages (complete c)
send_all-statuses (other_message kind ∷ messages) c = send_all-statuses messages (complete c)
