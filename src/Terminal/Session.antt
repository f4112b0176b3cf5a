-- ===== src/Terminal/Session.antt =====
-- frontend/src/lib/terminalSession.ts: one terminal tab's session.
-- What the session does to the renderer, the sockets and the tab strip is a log of effects; what
-- they do to it is an event. The browser's part (when a socket may open, answer or close) is in
-- `step`, every method of the class is a function of its own.
pub mod Invariant
pub mod Typed
pub mod Grows
pub mod Input
pub mod Owed
pub mod Closing
pub mod Silence
use m6t.Common.{
  ℕ, ◌+◌, Bool, true, false, not, ◌||◌, Option, none, some, List, [], ◌∷◌, ◌++◌, ◌==◌,
  if◌then◌else◌, maybe, Text, text, text_eq,
}
use m6t.Common.Int.{ℤ}
use m6t.Terminal.Protocol.{
  Json, Frame, resize_frame, close_frame, ServerMessage, exit, decode_server_message,
}

-- `WebSocket.readyState`.
pub data Ready : Type 0 where
  connecting opened closing closed : Ready

-- Which handlers a socket carries: those of `attach`, the single `onopen` of
-- `deliverPendingClose`, or none.
pub data Handlers : Type 0 where
  attached delivering detached : Handlers

pub record Socket : Type 0 where
  pub ready : Ready
  pub handlers : Handlers

pub data Status : Type 0 where
  running : Status
  exited : ℤ → Status
  failed : Text → Status

pub data Effect : Type 0 where
  fitted reset_screen disposed_terminal : Effect
  wrote : List ℕ → Effect
  asked : (cols rows : ℕ) → Effect
  connected : (i : ℕ) (id : Text) → Effect
  sent_input : (i : ℕ) (keys : Text) → Effect
  sent_frame : (i : ℕ) (frame : Frame) → Effect
  closed_socket : ℕ → Effect
  reported : Status → Effect

-- The fields of `TerminalSession`, with the sockets made so far (the i-th `connect` made socket
-- i), the pane's size, whether `start` waits for the backend, and the log.
pub record Session : Type 0 where
  pub sockets : ℕ → Socket
  pub made : ℕ
  pub socket : Option ℕ
  pub session_id : Option Text
  pub pending : List Text
  pub close_requested : Bool
  pub ended : Bool
  pub disposed : Bool
  pub autorun : Option Text
  pub started : Bool
  pub awaiting : Bool
  pub cols : ℕ
  pub rows : ℕ
  pub log : List Effect

unfoldable pub new_session : Option Text → ℕ → ℕ → Session
new_session autorun cols rows = record {
  sockets = λ _. record { ready = closed; handlers = detached };
  made = 0;
  socket = none;
  session_id = none;
  pending = [];
  close_requested = false;
  ended = false;
  disposed = false;
  autorun = autorun;
  started = false;
  awaiting = false;
  cols = cols;
  rows = rows;
  log = [];
}

abbrev pub is_open : Ready → Bool
is_open opened = true
is_open _ = false

abbrev pub is_connecting : Ready → Bool
is_connecting connecting = true
is_connecting _ = false

-- `readyState` after a call of `close`.
abbrev pub after_close : Ready → Ready
after_close closed = closed
after_close _ = closing

abbrev pub update : (ℕ → Socket) → ℕ → Socket → ℕ → Socket
update m i v j = if j == i then v else m j

abbrev pub emit : Effect → Session → Session
emit e s = record s { log = s.log ++ e ∷ [] }

unfoldable pub report : Status → Session → Session
report status s = if s.disposed then s else emit (reported status) s

-- Sends a control frame, dropping it when there is no open socket.
unfoldable pub control : Frame → Session → Session
control frame s =
    maybe s.socket s λ i. if is_open (s.sockets i).ready then emit (sent_frame i frame) s else s

abbrev pub queue : Text → Session → Session
queue keys s = record s { pending = s.pending ++ keys ∷ [] }

-- Sends input to the child, queueing it until the socket is open.
unfoldable pub send : Text → Session → Session
send keys s =
    maybe s.socket (queue keys s)
      λ i. if is_open (s.sockets i).ready then emit (sent_input i keys) s else queue keys s

unfoldable pub resize : Session → Session
resize s = control (resize_frame s.cols s.rows) (emit fitted s)

unfoldable pub close : Session → Session
close s = control close_frame (record s { close_requested = true })

unfoldable pub attach : Text → Session → Session
attach id s = record s {
  sockets = update s.sockets s.made (record { ready = connecting; handlers = attached });
  made = s.made + 1;
  socket = some s.made;
  log = s.log ++ connected s.made id ∷ [];
}

abbrev pub released : ℕ → Session → Session
released i s = record s {
  sockets =
      update s.sockets i (record { ready = after_close (s.sockets i).ready; handlers = detached });
  socket = none;
  log = s.log ++ closed_socket i ∷ [];
}

unfoldable pub detach : Session → Session
detach s = maybe s.socket s λ i. released i s

-- The socket, with nothing left on it but the `onopen` that sends the close.
abbrev pub kept_to_deliver : ℕ → Session → Session
kept_to_deliver i s = record s {
  sockets = update s.sockets i (record { ready = (s.sockets i).ready; handlers = delivering });
}

-- The state after, and whether the socket was kept to deliver a close.
unfoldable pub deliver_pending_close : Session → Session × Bool
deliver_pending_close s =
    maybe s.socket (s, false)
      λ i.
        if not s.close_requested || is_open (s.sockets i).ready
        then (s, false)
        else (kept_to_deliver i s, true)

-- The socket that delivers a close is only forgotten; any other is dropped.
abbrev pub drop_socket : Bool → Session → Session
drop_socket true s = record s { socket = none }
drop_socket false s = detach s

unfoldable pub dispose : Session → Session
dispose s =
    let (kept, delivered) = deliver_pending_close (record s { disposed = true }) in
    emit disposed_terminal (drop_socket delivered kept)

unfoldable pub send_all : List Text → Session → Session
send_all [] s = s
send_all (keys ∷ rest) s = send_all rest (send keys s)

-- The last test of `flush`.
unfoldable pub repeat_close : Session → Session
repeat_close s = if s.close_requested then control close_frame s else s

-- `pending.splice(0)`, and the loop over it.
unfoldable pub send_pending : Session → Session
send_pending s = send_all s.pending (record s { pending = [] })

-- `onopen`: everything that was typed or requested while the socket came up.
unfoldable pub flush : Session → Session
flush s = repeat_close (send_pending (resize s))

abbrev pub lost_message : Text
lost_message = text "the connection to this terminal was lost"

unfoldable pub lost : Session → Session
lost s =
    if s.ended || s.disposed then s else report (failed lost_message) (record s { ended = true })

-- An empty identifier counts as none.
abbrev pub named : Option Text → Option Text
named (some []) = none
named id = id

unfoldable pub resync : Session → Session
resync s = maybe (named s.session_id) s λ id. attach id (emit reset_screen (detach s))

unfoldable pub type_autorun : Session → Session
type_autorun s = maybe s.autorun s λ line. send (line ++ text "\n") (record s { autorun = none })

-- What a decoded frame does; an unknown one is ignored.
unfoldable pub handle_message : Option ServerMessage → Session → Session
handle_message none s = s
handle_message (some (exit code)) s = report (exited code) (record s { ended = true })
handle_message (some _) s = resync s

unfoldable pub handle_control : Option Json → Session → Session
handle_control raw s = handle_message (decode_server_message raw) s

-- A frame that arrives.
pub data Incoming : Type 0 where
  textual : Option Json → Incoming
  binary : List ℕ → Incoming

unfoldable pub receive : Incoming → Session → Session
receive (textual raw) s = handle_control raw s
receive (binary bytes) s = type_autorun (emit (wrote bytes) s)

-- `start` up to its `await`.
unfoldable pub start : Session → Session
start s = record s {
  started = true;
  awaiting = true;
  log = s.log ++ fitted ∷ asked s.cols s.rows ∷ [];
}

-- The rest of `start`, once the backend has answered.
unfoldable pub open_resolved : Text → Session → Session
open_resolved id s =
    let known = record s { session_id = some id; awaiting = false } in
    if known.disposed
    then (deliver_pending_close (attach id (record known { close_requested = true }))).0
    else report running (attach id known)

unfoldable pub open_failed : Text → Session → Session
open_failed message s = report (failed message) (record s { awaiting = false })

pub data Event : Type 0 where
  starts disposes closes : Event
  opens : Text → Event
  fails : Text → Event
  types : Text → Event
  resizes : (cols rows : ℕ) → Event
  socket_opens socket_closes socket_errors : ℕ → Event
  socket_receives : ℕ → Incoming → Event

abbrev pub set_ready : ℕ → Ready → Session → Session
set_ready i r s = record s {
  sockets = update s.sockets i (record { ready = r; handlers = (s.sockets i).handlers });
}

-- `onopen`, as the handlers of socket i have it.
unfoldable pub on_open : ℕ → Handlers → Session → Session
on_open i attached s = flush s
on_open i delivering s =
    set_ready i closing (emit (closed_socket i) (emit (sent_frame i close_frame) s))
on_open i detached s = s

unfoldable pub on_message : Handlers → Incoming → Session → Session
on_message attached m s = receive m s
on_message _ m s = s

unfoldable pub on_lost : Handlers → Session → Session
on_lost attached s = lost s
on_lost _ s = s

-- A socket opens only from CONNECTING, answers only while OPEN, and closes once.
unfoldable pub step : Session → Event → Session
step s starts = if s.started then s else start s
step s (opens id) = if s.awaiting then open_resolved id s else s
step s (fails message) = if s.awaiting then open_failed message s else s
step s disposes = dispose s
step s closes = close s
step s (types keys) = if s.started then send keys s else s
step s (resizes cols rows) = resize (record s { cols = cols; rows = rows })
step s (socket_opens i) =
    if is_connecting (s.sockets i).ready
    then on_open i (s.sockets i).handlers (set_ready i opened s)
    else s
step s (socket_receives i m) =
    if is_open (s.sockets i).ready then on_message (s.sockets i).handlers m s else s
step s (socket_errors i) = on_lost (s.sockets i).handlers s
step s (socket_closes i) = on_lost (s.sockets i).handlers (set_ready i closed s)

unfoldable pub run : Session → List Event → Session
run s [] = s
run s (e ∷ es) = run (step s e) es

-- What a test computes with.
unfoldable pub session_code : Unit {0}
unfolding run step start open_resolved open_failed dispose close send resize on_open on_message
    on_lost flush send_pending send_all repeat_close control lost resync type_autorun handle_control
    handle_message receive attach detach deliver_pending_close report new_session
    decode_server_message text_eq
session_code = tt
