-- ===== src/Websocket/WriteQueue/Order.antt =====
-- The write queue of websocket_session delivers in order, with one write at a time.
use mathlib.Core.List.{append-nil, append_assoc}
use datafeed_server.Prelude.{
  ◌≡◌, refl, ◌∙◌, ap, Bool, true, false, String, List, [], ◌∷◌, ◌++◌, Option, none, some, sym,
  subst,
}
use datafeed_server.Websocket.WriteQueue.{Writer, init, send_message, Event, step, run, handed_over}

-- Idle with an empty queue; or the front of the queue is being written; or a failed write has left
-- `writing_` set with no write under way.
abbrev pub Phase : Bool → Option String → List String → Type 0
Phase false none [] = Unit {0}
Phase true (some message) (front ∷ rest) = message ≡ front
Phase true none (front ∷ rest) = Unit {0}
Phase _ _ _ = ⊥

-- `sent` are the messages that were handed over: those written and then those still queued.
pub record IsValid (sent : List String) (w : Writer) : Type 0 where
  pub phase : Phase w.writing w.stream.in_flight w.write_queue
  pub in_order : w.stream.written ++ w.write_queue ≡ sent
  pub single : w.stream.overlapped ≡ false

pub init-IsValid : IsValid [] init
init-IsValid = record { phase = tt; in_order = refl; single = refl }

abbrev writer : Bool → Option String → List String → List String → Bool → Writer
writer b f q done o = record {
  write_queue = q;
  writing = b;
  stream = record { in_flight = f; written = done; overlapped = o };
}

module _ (done : List String) (o : Bool) where
  send-IsValid :
      (b : Bool) (f : Option String) (q sent : List String) (message : String)
      → IsValid sent (writer b f q done o)
      → IsValid (sent ++ (message ∷ [])) (send_message message (writer b f q done o))
  unfolding send_message
  send-IsValid false none [] sent message v = record {
    phase = refl;
    in_order = ap (λ l. l ++ (message ∷ [])) (sym (append-nil done) ∙ v.in_order);
    single = v.single;
  }
  send-IsValid true (some m) (front ∷ rest) sent message v = record {
    phase = v.phase;
    in_order =
        sym (append_assoc done (front ∷ rest) (message ∷ []))
        ∙ ap (λ l. l ++ (message ∷ [])) v.in_order;
    single = v.single;
  }
  send-IsValid true none (front ∷ rest) sent message v = record {
    phase = tt;
    in_order =
        sym (append_assoc done (front ∷ rest) (message ∷ []))
        ∙ ap (λ l. l ++ (message ∷ [])) v.in_order;
    single = v.single;
  }
  send-IsValid _ _ _ sent message v = absurd v.phase

  complete-IsValid :
      (ec b : Bool) (f : Option String) (q sent : List String)
      → IsValid sent (writer b f q done o)
      → IsValid sent (step (Event.complete ec) (writer b f q done o))
  unfolding step
  complete-IsValid ec b none q sent v = v
  complete-IsValid true true (some m) (front ∷ rest) sent v = record {
    phase = tt;
    in_order = v.in_order;
    single = v.single;
  }
  complete-IsValid false true (some m) (front ∷ []) sent v = record {
    phase = tt;
    in_order =
        append-nil (done ++ (m ∷ [])) ∙ ap (λ (x : String). done ++ (x ∷ [])) v.phase ∙ v.in_order;
    single = v.single;
  }
  complete-IsValid false true (some m) (front ∷ next ∷ rest) sent v = record {
    phase = refl;
    in_order =
        append_assoc done (m ∷ []) (next ∷ rest)
        ∙ ap (λ (x : String). done ++ (x ∷ next ∷ rest)) v.phase
        ∙ v.in_order;
    single = v.single;
  }
  complete-IsValid ec b (some m) q sent v = absurd v.phase

step-IsValid :
    (e : Event) (sent : List String) (w : Writer)
    → IsValid sent w
    → IsValid (sent ++ handed_over (e ∷ [])) (step e w)
unfolding step handed_over
step-IsValid (Event.send message) sent w v =
    send-IsValid w.stream.written w.stream.overlapped w.writing w.stream.in_flight w.write_queue
      sent message v
step-IsValid (Event.complete ec) sent w v = rw (append-nil sent) (
    complete-IsValid w.stream.written w.stream.overlapped ec w.writing w.stream.in_flight
      w.write_queue sent v)

handed_over-cons :
    (e : Event) (es : List Event) → handed_over (e ∷ []) ++ handed_over es ≡ handed_over (e ∷ es)
unfolding handed_over
handed_over-cons (Event.send message) es = refl
handed_over-cons (Event.complete ec) es = refl

run_from-IsValid :
    (es : List Event) (sent : List String) (w : Writer)
    → IsValid sent w
    → IsValid (sent ++ handed_over es) (run es w)
unfolding run handed_over
run_from-IsValid [] sent w v = rw (append-nil sent) v
run_from-IsValid (e ∷ es) sent w v =
    subst (λ l. IsValid l (run es (step e w)))
      (append_assoc sent (handed_over (e ∷ [])) (handed_over es)
        ∙ ap (λ l. sent ++ l) (handed_over-cons e es))
      (run_from-IsValid es (sent ++ handed_over (e ∷ [])) (step e w) (step-IsValid e sent w v))

-- After any events, failed writes included, the messages written and then those still queued are the
-- messages handed over, in their order; no write was started during another; and a write is under
-- way only for the front of the queue.
pub run-IsValid : (es : List Event) → IsValid (handed_over es) (run es init)
run-IsValid es = run_from-IsValid es [] init init-IsValid
