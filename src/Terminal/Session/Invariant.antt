-- ===== src/Terminal/Session/Invariant.antt =====
-- frontend/src/lib/terminalSession.ts: which socket is live, and what sending leaves alone.
use m6t.Common.{
  ℕ, ◌≤◌, ◌<◌, ◌≡◌, refl, ap, ◌∙◌, ◌⊎◌, true, false, Option, none, some, List, [], ◌∷◌, arith,
  if_cases, maybe_cases, Text,
}
use m6t.Terminal.Session.{
  Ready, opened, closing, closed, Handlers, attached, delivering, detached, Socket, Status, running,
  exited, failed, Effect, reset_screen, wrote, sent_frame, closed_socket, Session, new_session,
  is_open, is_connecting, emit, report, control, send, resize, close, attach, detach,
  deliver_pending_close, dispose, send_all, repeat_close, send_pending, flush, lost, named, resync,
  type_autorun, handle_message, handle_control, Incoming, textual, binary, receive, start,
  open_resolved, open_failed, Event, starts, disposes, closes, opens, fails, types, resizes,
  socket_opens, socket_closes, socket_errors, socket_receives, set_ready, on_open, on_message,
  on_lost, step, run,
}
use m6t.Terminal.Protocol.{Frame, close_frame, ServerMessage, exit, decode_server_message}

-- Only the current socket carries the session's handlers, and it is one that was made.
pub record InvAt (s : Session) (i : ℕ) : Type 0 where
  pub made : s.socket ≡ some i → i < s.made
  pub current : (s.sockets i).handlers ≡ attached → s.socket ≡ some i
  pub unmade : s.made ≤ i → (s.sockets i).handlers ≡ detached
  pub wired :
      s.socket ≡ some i
      → ((s.sockets i).handlers ≡ attached) ⊎ ((s.sockets i).handlers ≡ delivering)
  pub waiting : s.awaiting ≡ true → s.socket ≡ none
  pub unstarted : s.started ≡ false → (s.socket ≡ none) × (s.awaiting ≡ false)

abbrev pub Inv : Session → Type 0
Inv s = (i : ℕ) → InvAt s i

-- What sending input or a control frame leaves alone.
pub record Same (s t : Session) : Type 0 where
  pub sockets : t.sockets ≡ s.sockets
  pub made : t.made ≡ s.made
  pub socket : t.socket ≡ s.socket
  pub session_id : t.session_id ≡ s.session_id
  pub close_requested : t.close_requested ≡ s.close_requested
  pub ended : t.ended ≡ s.ended
  pub disposed : t.disposed ≡ s.disposed
  pub started : t.started ≡ s.started
  pub awaiting : t.awaiting ≡ s.awaiting

Same-trans : {s t u : Session} → Same s t → Same t u → Same s u
Same-trans a b = record {
  sockets = b.sockets ∙ a.sockets;
  made = b.made ∙ a.made;
  socket = b.socket ∙ a.socket;
  session_id = b.session_id ∙ a.session_id;
  close_requested = b.close_requested ∙ a.close_requested;
  ended = b.ended ∙ a.ended;
  disposed = b.disposed ∙ a.disposed;
  started = b.started ∙ a.started;
  awaiting = b.awaiting ∙ a.awaiting;
}

pub send-Same : (keys : Text) (s : Session) → Same s (send keys s)
unfolding send
send-Same keys s = ground arith

pub send_all-Same : (ks : List Text) (s : Session) → Same s (send_all ks s)
unfolding send_all
send_all-Same [] s = ground arith
send_all-Same (keys ∷ rest) s = Same-trans (send-Same keys s) (send_all-Same rest (send keys s))

pub control-Same : (frame : Frame) (s : Session) → Same s (control frame s)
unfolding control
control-Same frame s = ground arith

pub resize-Same : (s : Session) → Same s (resize s)
unfolding resize control
resize-Same s = ground arith

pub repeat_close-Same : (s : Session) → Same s (repeat_close s)
unfolding repeat_close
repeat_close-Same s = ground (arith, control-Same close_frame s)

pub send_pending-Same : (s : Session) → Same s (send_pending s)
unfolding send_pending
send_pending-Same s =
    Same-trans (ground arith) (send_all-Same s.pending (record s { pending = [] }))

pub flush-Same : (s : Session) → Same s (flush s)
unfolding flush
flush-Same s =
    Same-trans (resize-Same s)
      (Same-trans (send_pending-Same (resize s)) (repeat_close-Same (send_pending (resize s))))

Same-InvAt : {s t : Session} (i : ℕ) → Same s t → InvAt s i → InvAt t i
Same-InvAt i e v = ground (arith, ap (λ (f : ℕ → Socket). f i) e.sockets)

pub close-Inv : (s : Session) → Inv s → Inv (close s)
unfolding close
close-Inv s v i =
    Same-InvAt i (control-Same close_frame (record s { close_requested = true }))
      (ground (arith, v i))

pub report-Inv : (status : Status) (s : Session) → Inv s → Inv (report status s)
unfolding report
report-Inv status s v i = ground (arith, v i)

pub emit-Inv : (e : Effect) (s : Session) → Inv s → Inv (emit e s)
emit-Inv e s v i = ground (arith, v i)

pub attach-Inv :
    (id : Text) (s : Session)
    → s.socket ≡ none
    → s.awaiting ≡ false
    → s.started ≡ true
    → Inv s
    → Inv (attach id s)
unfolding attach
attach-Inv id s e w b v i = ground (arith, v i, v s.made)

pub detach-Inv : (s : Session) → Inv s → Inv (detach s)
unfolding detach
detach-Inv s v i = ground (arith, v i)

pub deliver-Inv : (s : Session) → Inv s → Inv (deliver_pending_close s).0
unfolding deliver_pending_close
deliver-Inv s v i = ground (arith, v i)

pub dispose-Inv : (s : Session) → Inv s → Inv (dispose s)
unfolding dispose deliver_pending_close detach
dispose-Inv s v i = ground (arith, v i)

-- What detaching leaves alone.
detach-kept :
    (s : Session)
    → ((detach s).socket ≡ none)
      × ((detach s).awaiting ≡ s.awaiting)
      × ((detach s).started ≡ s.started)
unfolding detach
detach-kept s = ground arith

pub resync-Inv : (s : Session) (i : ℕ) → s.socket ≡ some i → Inv s → Inv (resync s)
unfolding resync
resync-Inv s i e v =
    maybe_cases Inv (named s.session_id) (λ _. v)
      λ id _.
        attach-Inv id (emit reset_screen (detach s)) (detach-kept s).0
          (ground (arith, detach-kept s, v i)) (ground (arith, detach-kept s, v i))
          (emit-Inv reset_screen (detach s) (detach-Inv s v))

-- The session, once its identifier is known and before it attaches.
abbrev known_as : Text → Session → Session
known_as id s = record s { session_id = some id; awaiting = false }

known_as-Inv : (id : Text) (s : Session) → s.awaiting ≡ true → Inv s → Inv (known_as id s)
known_as-Inv id s w v i = ground (arith, v i)

was_started : (s : Session) → s.awaiting ≡ true → Inv s → (s.socket ≡ none) × (s.started ≡ true)
was_started s w v = ground (arith, v 0)

pub open_resolved-Inv :
    (id : Text) (s : Session) → s.awaiting ≡ true → Inv s → Inv (open_resolved id s)
unfolding open_resolved
open_resolved-Inv id s w v =
    let k = known_as-Inv id s w v in
    let (free, begun) = was_started s w v in
    if_cases Inv s.disposed
      (λ _. deliver-Inv _ (
        attach-Inv id (record (known_as id s) { close_requested = true }) free refl begun
          (λ i. ground (arith, k i))))
      (λ _. report-Inv running _ (attach-Inv id (known_as id s) free refl begun k))

pub set_ready-Inv : (i : ℕ) (r : Ready) (s : Session) → Inv s → Inv (set_ready i r s)
set_ready-Inv i r s v j = ground (arith, v i, v j)

pub on_open-Inv : (i : ℕ) (h : Handlers) (s : Session) → Inv s → Inv (on_open i h s)
unfolding on_open
on_open-Inv i attached s v j = Same-InvAt j (flush-Same s) (v j)
on_open-Inv i delivering s v j =
    set_ready-Inv i closing (emit (closed_socket i) (emit (sent_frame i close_frame) s))
      (λ k. ground (arith, v k)) j
on_open-Inv i detached s v j = v j

pub lost-Inv : (s : Session) → Inv s → Inv (lost s)
unfolding lost report
lost-Inv s v i = ground (arith, v i)

pub on_lost-Inv : (h : Handlers) (s : Session) → Inv s → Inv (on_lost h s)
unfolding on_lost
on_lost-Inv attached s v = lost-Inv s v
on_lost-Inv delivering s v = v
on_lost-Inv detached s v = v

pub type_autorun-Same : (s : Session) → Same s (type_autorun s)
unfolding type_autorun send
type_autorun-Same s = ground arith

handle_message-Inv :
    (m : Option ServerMessage) (s : Session) (i : ℕ)
    → s.socket ≡ some i
    → Inv s
    → Inv (handle_message m s)
unfolding handle_message
handle_message-Inv none s i e v = v
handle_message-Inv (some (exit code)) s i e v =
    report-Inv (exited code) (record s { ended = true }) (λ j. ground (arith, v j))
handle_message-Inv (some _) s i e v = resync-Inv s i e v

pub on_message-Inv :
    (i : ℕ) (h : Handlers) (m : Incoming) (s : Session)
    → (h ≡ attached → s.socket ≡ some i)
    → Inv s
    → Inv (on_message h m s)
unfolding on_message receive handle_control
on_message-Inv i attached (textual raw) s e v =
    handle_message-Inv (decode_server_message raw) s i (e refl) v
on_message-Inv i attached (binary bytes) s e v =
    λ j. Same-InvAt j (type_autorun-Same (emit (wrote bytes) s)) (emit-Inv (wrote bytes) s v j)
on_message-Inv i delivering m s e v = v
on_message-Inv i detached m s e v = v

pub step-Inv : (s : Session) (e : Event) → Inv s → Inv (step s e)
unfolding step start open_failed
step-Inv s starts v = λ i. ground (arith, v i)
step-Inv s (opens id) v = if_cases Inv s.awaiting (λ w. open_resolved-Inv id s w v) (λ _. v)
step-Inv s (fails message) v =
    if_cases Inv s.awaiting
      (λ w. report-Inv (failed message) (record s { awaiting = false }) (λ i. ground (arith, v i)))
      (λ _. v)
step-Inv s disposes v = dispose-Inv s v
step-Inv s closes v = close-Inv s v
step-Inv s (types keys) v = λ i. ground (arith, Same-InvAt i (send-Same keys s) (v i), v i)
step-Inv s (resizes cols rows) v =
    λ i. Same-InvAt i (resize-Same (record s { cols = cols; rows = rows })) (ground (arith, v i))
step-Inv s (socket_opens i) v =
    if_cases Inv (is_connecting (s.sockets i).ready)
      (λ w. on_open-Inv i _ _ (set_ready-Inv i opened s v)) (λ _. v)
step-Inv s (socket_receives i m) v =
    if_cases Inv (is_open (s.sockets i).ready) (λ w. on_message-Inv i _ m s (v i).current v)
      (λ _. v)
step-Inv s (socket_errors i) v = on_lost-Inv _ s v
step-Inv s (socket_closes i) v = on_lost-Inv _ _ (set_ready-Inv i closed s v)

pub new_session-Inv : (line : Option Text) (cols rows : ℕ) → Inv (new_session line cols rows)
unfolding new_session
new_session-Inv line cols rows i = ground arith

pub run-Inv : (s : Session) (es : List Event) → Inv s → Inv (run s es)
unfolding run
run-Inv s [] v = v
run-Inv s (e ∷ es) v = run-Inv (step s e) es (step-Inv s e v)

-- After any sequence of events only the current socket carries the session's handlers.
pub run-new_session-attached :
    (line : Option Text) (cols rows : ℕ) (es : List Event) (i : ℕ)
    → ((run (new_session line cols rows) es).sockets i).handlers ≡ attached
    → (run (new_session line cols rows) es).socket ≡ some i
run-new_session-attached line cols rows es i h =
    (run-Inv (new_session line cols rows) es (new_session-Inv line cols rows) i).current h
