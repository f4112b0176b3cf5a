-- ===== src/Terminal/Session/Input.antt =====
-- frontend/src/lib/terminalSession.ts: what is typed reaches the child in order.
use m6t.Common.{
  ℕ, ◌≡◌, refl, ap, ◌∙◌, true, false, ◌||◌, Option, none, some, List, [], ◌∷◌, ◌++◌, append_assoc,
  append-nil, arith, if◌then◌else◌, if_cases, maybe, both_cases, Text, text,
}
use m6t.Terminal.Session.{
  opened, closed, Handlers, attached, delivering, detached, exited, failed, fitted, wrote, asked,
  Session, new_session, is_open, is_connecting, emit, send, resize, close, lost_message, lost,
  type_autorun, handle_message, handle_control, Incoming, textual, binary, receive, start,
  open_failed, Event, starts, disposes, closes, opens, fails, types, resizes, socket_opens,
  socket_closes, socket_errors, socket_receives, set_ready, on_open, on_message, on_lost, step, run,
}
use m6t.Terminal.Protocol.{resize_frame, close_frame, ServerMessage, exit, decode_server_message}
use m6t.Terminal.Session.Invariant.{Inv, step-Inv, new_session-Inv}
use m6t.Terminal.Session.Typed.{inputs-append, typed, IsDrained}
use m6t.Terminal.Session.Grows.{
  Grows, Quiet-Grows, same-Grows, report-Grows, control-Grows, send-Grows, emit-Grows, Grows-after,
  resync-Grows, dispose-Grows, open_resolved-Grows, on_open-Grows,
}

-- The line that the first output types.

abbrev pub autorun_of : Option Text → List Text
autorun_of none = []
autorun_of (some line) = (line ++ text "\n") ∷ []

typed_autorun :
    (a : Option Text) (s : Session)
    → IsDrained s
    → Grows
        (typed s)
        (maybe a s λ line. send (line ++ text "\n") (record s { autorun = none }))
        (autorun_of a)
typed_autorun none s d = same-Grows s d
typed_autorun (some line) s d = send-Grows (line ++ text "\n") (record s { autorun = none }) d

handle_message-Grows :
    (m : Option ServerMessage) (s : Session) → IsDrained s → Grows (typed s) (handle_message m s) []
unfolding handle_message
handle_message-Grows none s d = same-Grows s d
handle_message-Grows (some (exit code)) s d =
    report-Grows (exited code) (record s { ended = true }) d
handle_message-Grows (some _) s d = resync-Grows s d

-- What a frame types: the autorun line, on output.
abbrev pub typed_on : Incoming → Session → List Text
typed_on (textual raw) s = []
typed_on (binary bytes) s = autorun_of s.autorun

receive-Grows :
    (m : Incoming) (s : Session) → IsDrained s → Grows (typed s) (receive m s) (typed_on m s)
unfolding receive type_autorun handle_control
receive-Grows (textual raw) s d = handle_message-Grows (decode_server_message raw) s d
receive-Grows (binary bytes) s d =
    Grows-after (emit-Grows (wrote bytes) s refl d)
      (typed_autorun s.autorun (emit (wrote bytes) s) d)

-- Only the session's own handlers listen.
abbrev when_attached : Handlers → List Text → List Text
when_attached attached keys = keys
when_attached _ keys = []

-- What an event types: the user's keys, or the autorun line on the first output.
abbrev pub typed_by : Session → Event → List Text
typed_by s (types keys) = if s.started then keys ∷ [] else []
typed_by s (socket_receives i m) =
    if is_open (s.sockets i).ready then when_attached (s.sockets i).handlers (typed_on m s) else []
typed_by s _ = []

on_message-Grows :
    (h : Handlers) (m : Incoming) (s : Session)
    → IsDrained s
    → Grows (typed s) (on_message h m s) (when_attached h (typed_on m s))
unfolding on_message
on_message-Grows attached m s d = receive-Grows m s d
on_message-Grows delivering m s d = same-Grows s d
on_message-Grows detached m s d = same-Grows s d

lost-Grows : (s : Session) → IsDrained s → Grows (typed s) (lost s) []
unfolding lost
lost-Grows s d =
    if_cases (λ t. Grows (typed s) t []) (s.ended || s.disposed) (λ _. same-Grows s d)
      (λ _. report-Grows (failed lost_message) (record s { ended = true }) d)

on_lost-Grows : (h : Handlers) (s : Session) → IsDrained s → Grows (typed s) (on_lost h s) []
unfolding on_lost
on_lost-Grows attached s d = lost-Grows s d
on_lost-Grows delivering s d = same-Grows s d
on_lost-Grows detached s d = same-Grows s d

start-Grows : (s : Session) → IsDrained s → Grows (typed s) (start s) []
unfolding start
start-Grows s d =
    Quiet-Grows s (start s)
      (inputs-append s.log (fitted ∷ asked s.cols s.rows ∷ []) ∙ append-nil _, refl) (λ k. k) d

resize-Grows : (s : Session) → IsDrained s → Grows (typed s) (resize s) []
unfolding resize
resize-Grows s d =
    Grows-after (emit-Grows fitted s refl d)
      (control-Grows (resize_frame s.cols s.rows) (emit fitted s) d)

-- The socket that opens is the current one, with the session's handlers, or another.
open-Grows :
    (i : ℕ) (s : Session)
    → Inv s
    → IsDrained s
    → Grows (typed s) (on_open i (s.sockets i).handlers (set_ready i opened s)) []
open-Grows i s v d =
    on_open-Grows i (s.sockets i).handlers (set_ready i opened s) (v i).current
      (λ e f. ground (arith, v i)) (ground arith) (λ j n e o. ground (arith, d j))

pub step-Grows :
    (s : Session) (e : Event) → Inv s → IsDrained s → Grows (typed s) (step s e) (typed_by s e)
unfolding step
step-Grows s starts v d =
    if_cases (λ t. Grows (typed s) t []) s.started (λ _. same-Grows s d) (λ _. start-Grows s d)
step-Grows s (opens id) v d =
    if_cases (λ t. Grows (typed s) t []) s.awaiting (λ _. open_resolved-Grows id s d)
      (λ _. same-Grows s d)
step-Grows s (fails message) v d =
    unfold open_failed in
    if_cases (λ t. Grows (typed s) t []) s.awaiting
      (λ _. report-Grows (failed message) (record s { awaiting = false }) d) (λ _. same-Grows s d)
step-Grows s disposes v d = dispose-Grows s d
step-Grows s closes v d =
    unfold close in control-Grows close_frame (record s { close_requested = true }) d
step-Grows s (types keys) v d =
    both_cases (Grows (typed s)) s.started (send-Grows keys s d) (same-Grows s d)
step-Grows s (resizes cols rows) v d = resize-Grows (record s { cols = cols; rows = rows }) d
step-Grows s (socket_opens i) v d =
    if_cases (λ t. Grows (typed s) t []) (is_connecting (s.sockets i).ready)
      (λ _. open-Grows i s v d) (λ _. same-Grows s d)
step-Grows s (socket_receives i m) v d =
    both_cases (Grows (typed s)) (is_open (s.sockets i).ready)
      (on_message-Grows (s.sockets i).handlers m s d) (same-Grows s d)
step-Grows s (socket_errors i) v d = on_lost-Grows (s.sockets i).handlers s d
step-Grows s (socket_closes i) v d =
    on_lost-Grows (s.sockets i).handlers (set_ready i closed s) (λ j. ground (arith, d j))

-- What a sequence of events types.
abbrev pub typed_in : Session → List Event → List Text
typed_in s [] = []
typed_in s (e ∷ es) = typed_by s e ++ typed_in (step s e) es

run-Grows :
    (s : Session) (es : List Event)
    → Inv s
    → IsDrained s
    → Grows (typed s) (run s es) (typed_in s es)
unfolding run
run-Grows s [] v d = same-Grows s d
run-Grows s (e ∷ es) v d =
    let now = step-Grows s e v d in
    let later = run-Grows (step s e) es (step-Inv s e v) now.drained in
    record {
      grown =
          later.grown
          ∙ ap (λ ks. ks ++ typed_in (step s e) es) now.grown
          ∙ append_assoc (typed s) (typed_by s e) (typed_in (step s e) es);
      drained = later.drained;
    }

new_session-typed :
    (line : Option Text) (cols rows : ℕ)
    → (typed (new_session line cols rows) ≡ []) × IsDrained (new_session line cols rows)
unfolding new_session
new_session-typed line cols rows = (refl, λ i _ _. refl)

-- After any events, what was sent over the sockets (in order, whichever socket carried it) and what
-- still waits are together exactly what was typed; and nothing waits while the current socket is
-- open.
pub run-new_session-typed :
    (line : Option Text) (cols rows : ℕ) (es : List Event)
    → (typed (run (new_session line cols rows) es) ≡ typed_in (new_session line cols rows) es)
      × IsDrained (run (new_session line cols rows) es)
run-new_session-typed line cols rows es =
    let (nothing, drained) = new_session-typed line cols rows in
    let g = run-Grows (new_session line cols rows) es (new_session-Inv line cols rows) drained in
    (g.grown ∙ ap (λ ks. ks ++ typed_in (new_session line cols rows) es) nothing, g.drained)
