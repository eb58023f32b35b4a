-- ===== src/Websocket/WriteQueue/Progress.antt =====
-- What becomes of the queued messages of websocket_session when the writes complete, and when one fails.
use mathlib.Core.List.{append-nil, append_assoc}
use datafeed_server.Prelude.{
  ◌≡◌, refl, ◌∙◌, ap, sym, Bool, true, false, String, List, [], ◌∷◌, ◌++◌, Option, none, some,
  arith, replicate, length, subst,
}
use datafeed_server.Websocket.WriteQueue.{
  Writer, send_message, on_write, Event, step, run, handed_over,
}
use datafeed_server.Websocket.WriteQueue.Order.{IsValid, Phase}

-- The rounds of a queue whose front is being written.
drain_from :
    (rest : List String) (front : String) (done : List String) (o : Bool)
    → run (replicate (length (front ∷ rest)) (Event.complete false)) (record {
      write_queue = front ∷ rest;
      writing = true;
      stream = record { in_flight = some front; written = done; overlapped = o };
    })
      ≡ record {
        write_queue = [];
        writing = false;
        stream = record { in_flight = none; written = done ++ (front ∷ rest); overlapped = o };
      }
unfolding run step
drain_from [] front done o = refl
drain_from (next ∷ rest) front done o =
    rw (← append_assoc done (front ∷ []) (next ∷ rest))
      (drain_from rest next (done ++ (front ∷ [])) o)

drain_parts :
    (b : Bool) (f : Option String) (q done sent : List String) (o : Bool) (message : String)
    → IsValid sent (record {
      write_queue = q;
      writing = b;
      stream = record { in_flight = f; written = done; overlapped = o };
    })
    → f ≡ some message
    → run (replicate (length q) (Event.complete false)) (record {
      write_queue = q;
      writing = b;
      stream = record { in_flight = f; written = done; overlapped = o };
    })
      ≡ record {
        write_queue = [];
        writing = false;
        stream = record { in_flight = none; written = sent; overlapped = false };
      }
drain_parts true (some m) (front ∷ rest) done sent o message v busy =
    rw (v.phase, drain_from rest front done o, v.in_order, v.single)
drain_parts b none q done sent o message v busy = cc
drain_parts false (some m) q done sent o message v busy = absurd v.phase
drain_parts true (some m) [] done sent o message v busy = absurd v.phase

-- While a write is under way, as many successful completions as there are queued messages empty the
-- queue: then all that was handed over has been written, in order, and nothing is under way.
pub run-drains :
    (sent : List String) (w : Writer) {message : String}
    → IsValid sent w
    → w.stream.in_flight ≡ some message
    → run (replicate (length w.write_queue) (Event.complete false)) w ≡ record {
      write_queue = [];
      writing = false;
      stream = record { in_flight = none; written = sent; overlapped = false };
    }
run-drains sent w {message} v busy =
    drain_parts w.writing w.stream.in_flight w.write_queue w.stream.written sent w.stream.overlapped
      message v busy

send_message-busy :
    (message : String) (w : Writer)
    → w.writing ≡ true
    → send_message message w ≡ record w { write_queue = w.write_queue ++ (message ∷ []) }
unfolding send_message
send_message-busy message w b = ground arith

-- Once `writing_` is set with no write under way, as a failed write leaves it, nothing is ever written
-- again: whatever is handed over only makes the queue longer.
pub run-stopped :
    (es : List Event) (w : Writer)
    → w.writing ≡ true
    → w.stream.in_flight ≡ none
    → run es w ≡ record w { write_queue = w.write_queue ++ handed_over es }
unfolding run step handed_over
run-stopped [] w b f = ap (λ q. record w { write_queue = q }) (sym (append-nil w.write_queue))
run-stopped (Event.send message ∷ es) w b f = rw (send_message-busy message w b) (
    run-stopped es (record w { write_queue = w.write_queue ++ (message ∷ []) }) b f
    ∙ ap (λ q. record w { write_queue = q })
        (append_assoc w.write_queue (message ∷ []) (handed_over es)))
run-stopped (Event.complete ec ∷ es) w b f = ap (run es) (idle ec) ∙ run-stopped es w b f
  where
    idle : (e : Bool) → step (Event.complete e) w ≡ w
    idle e = ground arith

Phase-writing : (b : Bool) (m : String) (q : List String) → Phase b (some m) q → b ≡ true
Phase-writing true m q h = refl
Phase-writing false m q h = absurd h

-- A write that fails is not retried: the message under way and those queued behind it stay in the
-- queue, later messages join them, and nothing more is ever written, whatever happens later.
pub failed_write-stops :
    (sent : List String) (w : Writer) {message : String} (es : List Event)
    → IsValid sent w
    → w.stream.in_flight ≡ some message
    → run (Event.complete true ∷ es) w ≡ record w {
      write_queue = w.write_queue ++ handed_over es;
      stream = record w.stream { in_flight = none };
    }
unfolding run step on_write
failed_write-stops sent w {message} es v busy = rw failure (
    run-stopped es (record w { stream = record w.stream { in_flight = none } })
      (Phase-writing w.writing message w.write_queue
        (subst (λ f. Phase w.writing f w.write_queue) busy v.phase))
      refl)
  where
    failure :
        step (Event.complete true) w ≡ record w { stream = record w.stream { in_flight = none } }
    failure = ground arith
