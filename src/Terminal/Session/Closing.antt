-- ===== src/Terminal/Session/Closing.antt =====
-- frontend/src/lib/terminalSession.ts: a close that was asked for reaches the child, whenever the
-- socket comes up.
use m6t.Terminal.Session.{
  connecting, opened, Handlers, attached, delivering, detached, Socket, Effect, fitted, sent_input,
  sent_frame, closed_socket, Session, is_open, is_connecting, emit, report, control, queue, send,
  resize, close, attach, deliver_pending_close, send_all, repeat_close, send_pending, flush,
  open_resolved, Event, closes, opens, socket_opens, set_ready, on_open, step, run,
}
use m6t.Common.{
  ℕ, suc, ◌+◌, ◌≡◌, refl, sym, ap, ◌∙◌, subst, ◌⊎◌, true, some, List, [], ◌∷◌, ◌++◌, arith, ◌==◌,
  if◌then◌else◌, if_cases, maybe_cases, Text,
}
use m6t.Terminal.Protocol.{resize_frame, close_frame}
use m6t.Terminal.Session.Invariant.{Inv, send_all-Same, control-Same, resize-Same, run-Inv}
use m6t.Terminal.Session.Owed.{Owed, Same-Owed, AreOther, run-Owed}

-- How many close frames went over socket i.

abbrev pub closes_over : ℕ → List Effect → ℕ
closes_over i [] = 0
closes_over i (sent_frame j close_frame ∷ log) =
    if j == i then suc (closes_over i log) else closes_over i log
closes_over i (_ ∷ log) = closes_over i log

closes_over-append :
    (i : ℕ) (a b : List Effect) → closes_over i (a ++ b) ≡ closes_over i a + closes_over i b
closes_over-append i [] b = omega arith
closes_over-append i (sent_frame j close_frame ∷ a) b = ground (arith, closes_over-append i a b)
closes_over-append i (_ ∷ a) b = closes_over-append i a b

-- Opening as the handlers have it leaves the frames that were sent, and adds the close.
delivering_sends :
    (i : ℕ) (s : Session) → closes_over i (on_open i delivering s).log ≡ suc (closes_over i s.log)
unfolding on_open
delivering_sends i s = ground (
  arith,
  closes_over-append i s.log (sent_frame i close_frame ∷ []),
  closes_over-append i (s.log ++ sent_frame i close_frame ∷ []) (closed_socket i ∷ []),
)

add_quiet :
    (i : ℕ) (e : Effect) (log : List Effect)
    → closes_over i (e ∷ []) ≡ 0
    → closes_over i (log ++ e ∷ []) ≡ closes_over i log
add_quiet i e log q = omega (arith, closes_over-append i log (e ∷ []))

abbrev SameCloses : ℕ → Session → Session → Type 0
SameCloses i s t = closes_over i t.log ≡ closes_over i s.log

send-closes :
    (keys : Text) (s : Session) (i : ℕ) → closes_over i (send keys s).log ≡ closes_over i s.log
unfolding send
send-closes keys s i =
    maybe_cases (SameCloses i s) s.socket (λ _. refl)
      λ j _.
        if_cases (SameCloses i s) (is_open (s.sockets j).ready) {x = emit (sent_input j keys) s}
          {y = queue keys s} (λ _. add_quiet i (sent_input j keys) s.log refl) (λ _. refl)

send_all-closes :
    (ks : List Text) (s : Session) (i : ℕ) → closes_over i (send_all ks s).log ≡ closes_over i s.log
unfolding send_all
send_all-closes [] s i = refl
send_all-closes (keys ∷ ks) s i = send_all-closes ks (send keys s) i ∙ send-closes keys s i

resize-closes : (s : Session) (i : ℕ) → closes_over i (resize s).log ≡ closes_over i s.log
unfolding resize control
resize-closes s i =
    maybe_cases (SameCloses i s) s.socket (λ _. add_quiet i fitted s.log refl)
      λ j _.
        if_cases (SameCloses i s) (is_open (s.sockets j).ready)
          {x = emit (sent_frame j (resize_frame s.cols s.rows)) (emit fitted s)} {y = emit fitted s}
          (λ _.
            add_quiet i (sent_frame j (resize_frame s.cols s.rows)) (s.log ++ fitted ∷ []) refl
            ∙ add_quiet i fitted s.log refl)
          (λ _. add_quiet i fitted s.log refl)

repeat_close-closes :
    (s : Session) (i : ℕ)
    → s.socket ≡ some i
    → (s.sockets i).ready ≡ opened
    → s.close_requested ≡ true
    → closes_over i (repeat_close s).log ≡ suc (closes_over i s.log)
unfolding repeat_close control
repeat_close-closes s i e o w =
    ground (arith, closes_over-append i s.log (sent_frame i close_frame ∷ []))

flush_sends :
    (i : ℕ) (s : Session)
    → s.socket ≡ some i
    → (s.sockets i).ready ≡ opened
    → s.close_requested ≡ true
    → closes_over i (flush s).log ≡ suc (closes_over i s.log)
unfolding flush send_pending
flush_sends i s e o w =
    let sized = resize-Same s in
    let sent = send_all-Same (resize s).pending (record (resize s) { pending = [] }) in
    repeat_close-closes (send_pending (resize s)) i (sent.socket ∙ sized.socket ∙ e)
      (ap (λ (f : ℕ → Socket). (f i).ready) (sent.sockets ∙ sized.sockets) ∙ o)
      (sent.close_requested ∙ sized.close_requested ∙ w)
    ∙ ap suc (
        send_all-closes (resize s).pending (record (resize s) { pending = [] }) i
        ∙ resize-closes s i)

-- Once socket i opens, the close that is owed goes out over it, once.
open-closes :
    (s : Session) (i : ℕ)
    → Inv s
    → Owed s i
    → closes_over i (step s (socket_opens i)).log ≡ suc (closes_over i s.log)
unfolding step
open-closes s i v o =
    subst
      (λ b.
        closes_over i (if b then on_open i (s.sockets i).handlers (set_ready i opened s) else s).log
        ≡ suc (closes_over i s.log))
      (ap is_connecting (sym o.coming)) (by_handlers (s.sockets i).handlers refl)
  where
    by_handlers :
        (h : Handlers)
        → (s.sockets i).handlers ≡ h
        → closes_over i (on_open i h (set_ready i opened s)).log ≡ suc (closes_over i s.log)
    by_handlers attached e =
        unfold on_open in
        flush_sends i (set_ready i opened s) ((v i).current e) (ground arith) o.wanted
    by_handlers delivering e = delivering_sends i (set_ready i opened s)
    by_handlers detached e = ground (arith, o.live)

-- A close that was asked for while socket i was coming up (whether the session was disposed of
-- since or not, and whatever else happened meanwhile) goes out over it as soon as it opens, once.
pub closes_over-run :
    (s : Session) (es : List Event) (i : ℕ)
    → Inv s
    → Owed s i
    → AreOther i es
    → closes_over i (step (run s es) (socket_opens i)).log ≡ suc (closes_over i (run s es).log)
closes_over-run s es i v o n = open-closes (run s es) i (run-Inv s es v) (run-Owed s es i v n o)

-- A pane that went away, or was closed, before the backend answered owes a close to the socket that
-- the answer opens.
pub open_resolved-owes :
    (s : Session) (id : Text)
    → Inv s
    → s.awaiting ≡ true
    → (s.disposed ≡ true) ⊎ (s.close_requested ≡ true)
    → Owed (step s (opens id)) s.made
unfolding step open_resolved deliver_pending_close attach report
open_resolved-owes s id v w c = ground (arith, v s.made)

-- So does a session that is closed while its socket is coming up.
pub closes-owes :
    (s : Session) (i : ℕ)
    → Inv s
    → s.socket ≡ some i
    → (s.sockets i).ready ≡ connecting
    → Owed (step s closes) i
unfolding step close
closes-owes s i v e c =
    Same-Owed (control-Same close_frame (record s { close_requested = true })) (ground (arith, v i))
