-- ===== src/Terminal/Session/Silence.antt =====
-- frontend/src/lib/terminalSession.ts: what the tab strip hears of a session.
use m6t.Terminal.Session.{
  opened, closed, Handlers, attached, delivering, detached, Status, exited, failed, Effect, fitted,
  reset_screen, disposed_terminal, wrote, asked, connected, sent_input, sent_frame, closed_socket,
  reported, Session, is_open, is_connecting, emit, report, control, queue, send, resize, close,
  attach, detach, kept_to_deliver, deliver_pending_close, drop_socket, dispose, send_all,
  repeat_close, send_pending, flush, lost, named, resync, type_autorun, handle_message,
  handle_control, Incoming, textual, binary, receive, start, open_resolved, open_failed, Event,
  starts, disposes, closes, opens, fails, types, resizes, socket_opens, socket_closes,
  socket_errors, socket_receives, set_ready, on_open, on_message, on_lost, step, run,
}
use m6t.Common.{
  ℕ, ◌≡◌, refl, sym, ap, ◌∙◌, ◌⊎◌, inr, Bool, true, false, ◌||◌, Option, none, some, List, [], ◌∷◌,
  ◌++◌, append-nil, arith, if_cases, maybe_cases, Text, text,
}
use m6t.Terminal.Protocol.{
  Frame, resize_frame, close_frame, ServerMessage, exit, decode_server_message,
}

-- What the strip was told, oldest first.
abbrev pub reports : List Effect → List Status
reports [] = []
reports (reported status ∷ log) = status ∷ reports log
reports (_ ∷ log) = reports log

reports-append : (a b : List Effect) → reports (a ++ b) ≡ reports a ++ reports b
reports-append [] b = refl
reports-append (reported status ∷ a) b = ap (λ r. status ∷ r) (reports-append a b)
reports-append (_ ∷ a) b = reports-append a b

-- The session stays disposed and reports nothing more.
pub record Silent (gone : Bool) (told : List Status) (t : Session) : Type 0 where
  pub 0 : t.disposed ≡ gone
  pub 1 : reports t.log ≡ told

Silent-refl : (s : Session) → Silent s.disposed (reports s.log) s
Silent-refl s = (refl, refl)

queue-Silent : (keys : Text) (s : Session) → Silent s.disposed (reports s.log) (queue keys s)
queue-Silent keys s = (refl, refl)

kept-Silent : (i : ℕ) (s : Session) → Silent s.disposed (reports s.log) (kept_to_deliver i s)
kept-Silent i s = (refl, refl)

Silent-trans :
    {gone : Bool} {told : List Status} {t u : Session}
    → Silent gone told t
    → Silent t.disposed (reports t.log) u
    → Silent gone told u
Silent-trans a b = (b.0 ∙ a.0, b.1 ∙ a.1)

emit-Silent :
    (e : Effect) (s : Session)
    → reports (e ∷ []) ≡ []
    → Silent s.disposed (reports s.log) (emit e s)
emit-Silent e s q =
    (refl, reports-append s.log (e ∷ []) ∙ ap (λ r. reports s.log ++ r) q ∙ append-nil _)

send-Silent : (keys : Text) (s : Session) → Silent s.disposed (reports s.log) (send keys s)
unfolding send
send-Silent keys s =
    maybe_cases (Silent s.disposed (reports s.log)) s.socket (λ _. queue-Silent keys s)
      λ i _.
        if_cases (Silent s.disposed (reports s.log)) _ (λ _. emit-Silent (sent_input i keys) s refl)
          (λ _. queue-Silent keys s)

send_all-Silent : (ks : List Text) (s : Session) → Silent s.disposed (reports s.log) (send_all ks s)
unfolding send_all
send_all-Silent [] s = Silent-refl s
send_all-Silent (keys ∷ ks) s = Silent-trans (send-Silent keys s) (send_all-Silent ks (send keys s))

control-Silent : (f : Frame) (s : Session) → Silent s.disposed (reports s.log) (control f s)
unfolding control
control-Silent f s =
    maybe_cases (Silent s.disposed (reports s.log)) s.socket (λ _. Silent-refl s)
      λ i _.
        if_cases (Silent s.disposed (reports s.log)) _ (λ _. emit-Silent (sent_frame i f) s refl)
          (λ _. Silent-refl s)

resize-Silent : (s : Session) → Silent s.disposed (reports s.log) (resize s)
unfolding resize
resize-Silent s =
    Silent-trans (emit-Silent fitted s refl)
      (control-Silent (resize_frame s.cols s.rows) (emit fitted s))

flush-Silent : (s : Session) → Silent s.disposed (reports s.log) (flush s)
unfolding flush send_pending repeat_close
flush-Silent s =
    let t = send_all (resize s).pending (record (resize s) { pending = [] }) in
    Silent-trans (resize-Silent s) (
      Silent-trans (send_all-Silent (resize s).pending (record (resize s) { pending = [] })) (
        if_cases (Silent t.disposed (reports t.log)) t.close_requested
          (λ _. control-Silent close_frame t) (λ _. Silent-refl t)))

attach-Silent : (id : Text) (s : Session) → Silent s.disposed (reports s.log) (attach id s)
unfolding attach
attach-Silent id s = (refl, (emit-Silent (connected s.made id) s refl).1)

detach-Silent : (s : Session) → Silent s.disposed (reports s.log) (detach s)
unfolding detach
detach-Silent s =
    maybe_cases (Silent s.disposed (reports s.log)) s.socket (λ _. Silent-refl s)
      λ i _. (refl, (emit-Silent (closed_socket i) s refl).1)

deliver-Silent : (s : Session) → Silent s.disposed (reports s.log) (deliver_pending_close s).0
unfolding deliver_pending_close
deliver-Silent s =
    maybe_cases {B = Session × Bool} (λ t. Silent s.disposed (reports s.log) t.0) s.socket
      (λ _. Silent-refl s)
      λ i _.
        if_cases {A = Session × Bool} (λ t. Silent s.disposed (reports s.log) t.0) _
          (λ _. Silent-refl s) (λ _. kept-Silent i s)

-- A disposed session reports nothing.
report-Silent :
    (status : Status) (s : Session)
    → s.disposed ≡ true
    → Silent s.disposed (reports s.log) (report status s)
unfolding report
report-Silent status s d =
    if_cases (Silent s.disposed (reports s.log)) s.disposed (λ _. Silent-refl s) (λ n. cc)

resync-Silent : (s : Session) → Silent s.disposed (reports s.log) (resync s)
unfolding resync
resync-Silent s =
    maybe_cases (Silent s.disposed (reports s.log)) (named s.session_id) (λ _. Silent-refl s)
      λ id _. Silent-trans (detach-Silent s) (
        Silent-trans (emit-Silent reset_screen (detach s) refl)
          (attach-Silent id (emit reset_screen (detach s))))

drop_socket-Silent : (b : Bool) (s : Session) → Silent s.disposed (reports s.log) (drop_socket b s)
drop_socket-Silent true s = record { 0 = refl; 1 = refl }
drop_socket-Silent false s = detach-Silent s

handle_message-Silent :
    (m : Option ServerMessage) (s : Session)
    → s.disposed ≡ true
    → Silent s.disposed (reports s.log) (handle_message m s)
unfolding handle_message
handle_message-Silent none s d = Silent-refl s
handle_message-Silent (some (exit code)) s d =
    report-Silent (exited code) (record s { ended = true }) d
handle_message-Silent (some _) s d = resync-Silent s

receive-Silent :
    (m : Incoming) (s : Session)
    → s.disposed ≡ true
    → Silent s.disposed (reports s.log) (receive m s)
unfolding receive handle_control type_autorun
receive-Silent (textual raw) s d = handle_message-Silent (decode_server_message raw) s d
receive-Silent (binary bytes) s d = Silent-trans (emit-Silent (wrote bytes) s refl) (
    maybe_cases (Silent s.disposed (reports (emit (wrote bytes) s).log)) s.autorun
      (λ _. Silent-refl (emit (wrote bytes) s))
      λ line _. send-Silent (line ++ text "\n") (record (emit (wrote bytes) s) { autorun = none }))

on_open-Silent :
    (i : ℕ) (h : Handlers) (s : Session) → Silent s.disposed (reports s.log) (on_open i h s)
unfolding on_open
on_open-Silent i attached s = flush-Silent s
on_open-Silent i delivering s =
    let sent = emit-Silent (sent_frame i close_frame) s refl in
    let shut = emit-Silent (closed_socket i) (emit (sent_frame i close_frame) s) refl in
    (refl, shut.1 ∙ sent.1)
on_open-Silent i detached s = Silent-refl s

on_message-Silent :
    (h : Handlers) (m : Incoming) (s : Session)
    → s.disposed ≡ true
    → Silent s.disposed (reports s.log) (on_message h m s)
unfolding on_message
on_message-Silent attached m s d = receive-Silent m s d
on_message-Silent delivering m s d = Silent-refl s
on_message-Silent detached m s d = Silent-refl s

-- A connection that goes away after the child's exit, or after disposal, is not reported.
pub on_lost-Silent :
    (h : Handlers) (s : Session)
    → (s.ended ≡ true) ⊎ (s.disposed ≡ true)
    → Silent s.disposed (reports s.log) (on_lost h s)
unfolding on_lost lost
on_lost-Silent attached s c =
    if_cases (Silent s.disposed (reports s.log)) (s.ended || s.disposed) (λ _. Silent-refl s)
      (λ n. ground arith)
on_lost-Silent delivering s c = Silent-refl s
on_lost-Silent detached s c = Silent-refl s

open_resolved-Silent :
    (id : Text) (s : Session)
    → s.disposed ≡ true
    → Silent s.disposed (reports s.log) (open_resolved id s)
unfolding open_resolved
open_resolved-Silent id s d =
    if_cases (Silent s.disposed (reports s.log)) s.disposed
      (λ _.
        let k = record (record s { session_id = some id; awaiting = false }) {
          close_requested = true;
        } in
        Silent-trans (attach-Silent id k) (deliver-Silent (attach id k)))
      (λ n. cc)

step-Silent :
    (s : Session) (e : Event) → s.disposed ≡ true → Silent s.disposed (reports s.log) (step s e)
unfolding step start open_failed close dispose
step-Silent s starts d =
    if_cases (Silent s.disposed (reports s.log)) s.started (λ _. Silent-refl s)
      (λ _. (refl, reports-append s.log (fitted ∷ asked s.cols s.rows ∷ []) ∙ append-nil _))
step-Silent s (opens id) d =
    if_cases (Silent s.disposed (reports s.log)) s.awaiting (λ _. open_resolved-Silent id s d)
      (λ _. Silent-refl s)
step-Silent s (fails message) d =
    if_cases (Silent s.disposed (reports s.log)) s.awaiting
      (λ _. report-Silent (failed message) (record s { awaiting = false }) d) (λ _. Silent-refl s)
step-Silent s disposes d =
    let kept = deliver-Silent (record s { disposed = true }) in
    let (t, delivered) = deliver_pending_close (record s { disposed = true }) in
    let gone = drop_socket-Silent delivered t in
    let last = emit-Silent disposed_terminal (drop_socket delivered t) refl in
    (gone.0 ∙ kept.0 ∙ sym d, last.1 ∙ gone.1 ∙ kept.1)
step-Silent s closes d = control-Silent close_frame (record s { close_requested = true })
step-Silent s (types keys) d =
    if_cases (Silent s.disposed (reports s.log)) s.started (λ _. send-Silent keys s)
      (λ _. Silent-refl s)
step-Silent s (resizes cols rows) d = resize-Silent (record s { cols = cols; rows = rows })
step-Silent s (socket_opens i) d =
    if_cases (Silent s.disposed (reports s.log)) (is_connecting (s.sockets i).ready)
      (λ _. on_open-Silent i (s.sockets i).handlers (set_ready i opened s)) (λ _. Silent-refl s)
step-Silent s (socket_receives i m) d =
    if_cases (Silent s.disposed (reports s.log)) (is_open (s.sockets i).ready)
      (λ _. on_message-Silent (s.sockets i).handlers m s d) (λ _. Silent-refl s)
step-Silent s (socket_errors i) d = on_lost-Silent (s.sockets i).handlers s (inr d)
step-Silent s (socket_closes i) d =
    on_lost-Silent (s.sockets i).handlers (set_ready i closed s) (inr d)

-- Whatever happens after disposal, the strip hears nothing more of the session.
pub run-reports_of_disposed :
    (s : Session) (es : List Event) → s.disposed ≡ true → reports (run s es).log ≡ reports s.log
unfolding run
run-reports_of_disposed s [] d = refl
run-reports_of_disposed s (e ∷ es) d =
    let now = step-Silent s e d in run-reports_of_disposed (step s e) es (now.0 ∙ d) ∙ now.1
