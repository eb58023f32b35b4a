-- ===== src/Websocket/WriteQueue.antt =====
-- server/server.cpp: `send_message`, `do_write` and `on_write`, with utils/error.h `fail`, which does
-- nothing. The handlers of one session run on its strand, one at a time, so each is one step. The
-- stream is Boost.Beast's: of it the model keeps the write that is under way, the messages whose write
-- has completed, and whether a write was started while another was under way, which Beast forbids.
pub mod Order
pub mod Progress
use datafeed_server.Prelude.{
  ℕ, Bool, true, false, String, List, [], ◌∷◌, ◌++◌, Option, none, some, if◌then◌else◌,
}

pub record Stream : Type 0 where
  pub in_flight : Option String
  pub written : List String
  pub overlapped : Bool

-- `ws_.async_write`
unfoldable pub async_write : String → Stream → Stream
async_write message w = elim w.in_flight [
  | none ↦ record w { in_flight = some message }
  | some other ↦ record w { overlapped = true }
]

-- the fields of websocket_session that take part in writing
pub record Writer : Type 0 where
  pub write_queue : List String
  pub writing : Bool
  pub stream : Stream

abbrev pub init : Writer
init = record {
  write_queue = [];
  writing = false;
  stream = record { in_flight = none; written = []; overlapped = false };
}

unfoldable pub do_write : Writer → Writer
unfolding async_write
do_write w = elim w.write_queue [
  | [] ↦ record w { writing = false }
  | message ∷ rest ↦ record w { writing = true; stream = async_write message w.stream }
]

-- the closure that `send_message` posts to the strand
unfoldable pub send_message : String → Writer → Writer
unfolding do_write
send_message message w =
    let queued : Writer = record w { write_queue = w.write_queue ++ (message ∷ []) } in
    if queued.writing then queued else do_write queued

-- `write_queue_.pop()`
unfoldable pub pop : List String → List String
pop [] = []
pop (message ∷ rest) = rest

-- `on_write` with the error code: `fail` ignores it, and nothing else is done then
unfoldable pub on_write : Bool → Writer → Writer
unfolding do_write pop
on_write true w = w
on_write false w = do_write (record w { write_queue = pop w.write_queue })

-- What happens to a session: a message is handed over, or the write under way completes, with an error
-- or without. Only a write that is under way can complete.
pub data Event : Type 0 where
  send : String → Event
  complete : Bool → Event

unfoldable pub finish : Bool → String → Stream → Stream
finish true message w = record w { in_flight = none }
finish false message w = record w { in_flight = none; written = w.written ++ (message ∷ []) }

unfoldable pub step : Event → Writer → Writer
unfolding send_message on_write finish
step (Event.send message) w = send_message message w
step (Event.complete ec) w = elim w.stream.in_flight [
  | none ↦ w
  | some message ↦ on_write ec (record w { stream = finish ec message w.stream })
]

unfoldable pub run : List Event → Writer → Writer
run [] w = w
run (e ∷ es) w = run es (step e w)

-- the messages that were handed over, in order
unfoldable pub handed_over : List Event → List String
handed_over [] = []
handed_over (Event.send message ∷ es) = message ∷ handed_over es
handed_over (Event.complete ec ∷ es) = handed_over es
