-- ===== src/Terminal/Session/Owed.antt =====
-- frontend/src/lib/terminalSession.ts: a close frame that is owed to a socket stays owed until that
-- socket opens or closes.
use m6t.Terminal.Session.{
  connecting, opened, closed, Handlers, attached, delivering, detached, Socket, Status, exited,
  failed, reset_screen, wrote, Session, is_open, is_connecting, emit, report, close, attach, detach,
  deliver_pending_close, dispose, lost, named, resync, handle_message, handle_control, Incoming,
  textual, binary, receive, start, open_resolved, open_failed, Event, starts, disposes, closes,
  opens, fails, types, resizes, socket_opens, socket_closes, socket_errors, socket_receives,
  set_ready, on_open, on_message, on_lost, step, run,
}
use m6t.Common.{
  ℕ, ◌≡◌, refl, ap, ◌≢◌, ◌⊎◌, true, false, Option, none, some, List, [], ◌∷◌, arith, if_cases,
  maybe_cases, All, Text,
}
use m6t.Terminal.Protocol.{close_frame, ServerMessage, exit, decode_server_message}
use m6t.Terminal.Session.Invariant.{
  Inv, Same, send-Same, control-Same, resize-Same, flush-Same, emit-Inv, detach-Inv,
  type_autorun-Same, step-Inv,
}

-- A close frame is owed to the child behind socket i, which is still coming up.

pub record Owed (s : Session) (i : ℕ) : Type 0 where
  pub wanted : s.close_requested ≡ true
  pub coming : (s.sockets i).ready ≡ connecting
  pub live : ((s.sockets i).handlers ≡ attached) ⊎ ((s.sockets i).handlers ≡ delivering)

-- The events that settle what becomes of socket i.
abbrev pub IsOther : ℕ → Event → Type 0
IsOther i (socket_opens j) = j ≢ i
IsOther i (socket_closes j) = j ≢ i
IsOther i _ = Unit

pub Same-Owed : {s t : Session} {i : ℕ} → Same s t → Owed s i → Owed t i
Same-Owed {i} e o = ground (arith, ap (λ (f : ℕ → Socket). f i) e.sockets)

dispose-Owed : (s : Session) (i : ℕ) → Inv s → Owed s i → Owed (dispose s) i
unfolding dispose deliver_pending_close detach
dispose-Owed s i v o = ground (arith, v i)

attach-Owed : (id : Text) (s : Session) (i : ℕ) → Inv s → Owed s i → Owed (attach id s) i
unfolding attach
attach-Owed id s i v o = ground (arith, v i)

detach-Owed : (s : Session) (i j : ℕ) → s.socket ≡ some j → j ≢ i → Owed s i → Owed (detach s) i
unfolding detach
detach-Owed s i j e n o = ground arith

report-Owed : (status : Status) (s : Session) (i : ℕ) → Owed s i → Owed (report status s) i
unfolding report
report-Owed status s i o = ground arith

resync-Owed :
    (s : Session) (i j : ℕ) → s.socket ≡ some j → j ≢ i → Inv s → Owed s i → Owed (resync s) i
unfolding resync
resync-Owed s i j e n v o =
    maybe_cases (λ t. Owed t i) (named s.session_id) (λ _. o)
      λ id _.
        attach-Owed id (emit reset_screen (detach s)) i
          (emit-Inv reset_screen (detach s) (detach-Inv s v))
          (ground (arith, detach-Owed s i j e n o))

handle_message-Owed :
    (m : Option ServerMessage) (s : Session) (i j : ℕ)
    → s.socket ≡ some j
    → j ≢ i
    → Inv s
    → Owed s i
    → Owed (handle_message m s) i
unfolding handle_message
handle_message-Owed none s i j e n v o = o
handle_message-Owed (some (exit code)) s i j e n v o =
    report-Owed (exited code) (record s { ended = true }) i (ground arith)
handle_message-Owed (some _) s i j e n v o = resync-Owed s i j e n v o

on_message-Owed :
    (h : Handlers) (m : Incoming) (s : Session) (i j : ℕ)
    → (h ≡ attached → s.socket ≡ some j)
    → j ≢ i
    → Inv s
    → Owed s i
    → Owed (on_message h m s) i
unfolding on_message receive handle_control
on_message-Owed attached (textual raw) s i j e n v o =
    handle_message-Owed (decode_server_message raw) s i j (e refl) n v o
on_message-Owed attached (binary bytes) s i j e n v o =
    Same-Owed (type_autorun-Same (emit (wrote bytes) s)) (ground arith)
on_message-Owed delivering m s i j e n v o = o
on_message-Owed detached m s i j e n v o = o

on_lost-Owed : (h : Handlers) (s : Session) (i : ℕ) → Owed s i → Owed (on_lost h s) i
unfolding on_lost lost report
on_lost-Owed attached s i o = ground arith
on_lost-Owed delivering s i o = o
on_lost-Owed detached s i o = o

on_open-Owed :
    (j : ℕ) (h : Handlers) (s : Session) (i : ℕ) → j ≢ i → Owed s i → Owed (on_open j h s) i
unfolding on_open
on_open-Owed j attached s i n o = Same-Owed (flush-Same s) o
on_open-Owed j delivering s i n o = ground arith
on_open-Owed j detached s i n o = o

open_resolved-Owed :
    (id : Text) (s : Session) (i : ℕ)
    → Inv s
    → Owed s i
    → s.awaiting ≡ true
    → Owed (open_resolved id s) i
unfolding open_resolved deliver_pending_close attach report
open_resolved-Owed id s i v o w = ground (arith, v i)

step-Owed : (s : Session) (e : Event) (i : ℕ) → Inv s → IsOther i e → Owed s i → Owed (step s e) i
unfolding step start open_failed close
step-Owed s starts i v n o = ground arith
step-Owed s (opens id) i v n o =
    if_cases (λ t. Owed t i) s.awaiting (open_resolved-Owed id s i v o) (λ _. o)
step-Owed s (fails message) i v n o =
    if_cases (λ t. Owed t i) s.awaiting
      (λ _. report-Owed (failed message) (record s { awaiting = false }) i (ground arith)) (λ _. o)
step-Owed s disposes i v n o = dispose-Owed s i v o
step-Owed s closes i v n o =
    Same-Owed (control-Same close_frame (record s { close_requested = true })) (ground arith)
step-Owed s (types keys) i v n o =
    if_cases (λ t. Owed t i) s.started (λ _. Same-Owed (send-Same keys s) o) (λ _. o)
step-Owed s (resizes cols rows) i v n o =
    Same-Owed (resize-Same (record s { cols = cols; rows = rows })) (ground arith)
step-Owed s (socket_opens j) i v n o =
    if_cases (λ t. Owed t i) (is_connecting (s.sockets j).ready)
      (λ _. on_open-Owed j (s.sockets j).handlers (set_ready j opened s) i n (ground arith))
      (λ _. o)
step-Owed s (socket_receives j m) i v n o =
    if_cases (λ t. Owed t i) (is_open (s.sockets j).ready)
      (λ up.
        on_message-Owed (s.sockets j).handlers m s i j (v j).current
          (λ e. ground (arith, ap s.sockets e)) v o)
      (λ _. o)
step-Owed s (socket_errors j) i v n o = on_lost-Owed (s.sockets j).handlers s i o
step-Owed s (socket_closes j) i v n o =
    on_lost-Owed (s.sockets j).handlers (set_ready j closed s) i (ground arith)

abbrev pub AreOther : ℕ → List Event → Type 0
AreOther i es = All (IsOther i) es

pub run-Owed :
    (s : Session) (es : List Event) (i : ℕ) → Inv s → AreOther i es → Owed s i → Owed (run s es) i
unfolding run
run-Owed s [] i v n o = o
run-Owed s (e ∷ es) i v n o =
    run-Owed (step s e) es i (step-Inv s e v) n.1 (step-Owed s e i v n.0 o)
