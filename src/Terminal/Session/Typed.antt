-- ===== src/Terminal/Session/Typed.antt =====
-- frontend/src/lib/terminalSession.ts: what each method sends or queues of what is typed.
use m6t.Common.{
  ℕ, ◌≡◌, refl, sym, ap, ◌∙◌, subst, ◌⊎◌, inl, inr, some, List, [], ◌∷◌, ◌++◌, append_assoc,
  append-nil, arith, Bool-cases, Option-cases, if_cases, maybe_cases, Text,
}
use m6t.Terminal.Session.{
  opened, Socket, Effect, fitted, sent_input, sent_frame, Session, is_open, emit, control, queue,
  send, resize, send_all, repeat_close, send_pending, flush,
}
use m6t.Terminal.Protocol.{Frame, resize_frame, close_frame}
use m6t.Terminal.Session.Invariant.{resize-Same}

-- The input that reached a socket, oldest first.

abbrev pub inputs : List Effect → List Text
inputs [] = []
inputs (sent_input i keys ∷ log) = keys ∷ inputs log
inputs (_ ∷ log) = inputs log

pub inputs-append : (a b : List Effect) → inputs (a ++ b) ≡ inputs a ++ inputs b
inputs-append [] b = refl
inputs-append (sent_input i keys ∷ a) b = ap (λ ks. keys ∷ ks) (inputs-append a b)
inputs-append (_ ∷ a) b = inputs-append a b

-- Everything typed so far: what was sent, and what waits for a socket.
abbrev pub typed : Session → List Text
typed s = inputs s.log ++ s.pending

-- Nothing waits while the current socket is open.
abbrev pub IsDrained : Session → Type 0
IsDrained s = (i : ℕ) → s.socket ≡ some i → (s.sockets i).ready ≡ opened → s.pending ≡ []

-- A step that neither sends input nor queues any.
abbrev pub Quiet : Session → Session → Type 0
Quiet s t = (inputs t.log ≡ inputs s.log) × (t.pending ≡ s.pending)

pub Quiet-typed : (s t : Session) → Quiet s t → typed t ≡ typed s ++ []
Quiet-typed s t q = rw (q.0, q.1, append-nil)

emit_input :
    (i : ℕ) (keys : Text) (log : List Effect)
    → inputs (log ++ sent_input i keys ∷ []) ≡ inputs log ++ keys ∷ []
emit_input i keys log = inputs-append log (sent_input i keys ∷ [])

pub emit_frame :
    (i : ℕ) (f : Frame) (log : List Effect) → inputs (log ++ sent_frame i f ∷ []) ≡ inputs log
emit_frame i f log = inputs-append log (sent_frame i f ∷ []) ∙ append-nil _

-- Input is queued, or goes out over the current socket, which is open.
send-cases :
    (keys : Text) (s : Session)
    → (send keys s ≡ queue keys s)
      ⊎ ((i : ℕ) × (s.socket ≡ some i)
          × ((s.sockets i).ready ≡ opened)
          × (send keys s ≡ emit (sent_input i keys) s))
unfolding send
send-cases keys s = elim (Option-cases s.socket) [
  | inl e ↦ inl (ground arith)
  | inr (i, e) ↦ elim (Bool-cases (is_open (s.sockets i).ready)) [
    | inl o ↦ inr (i, e, ground arith, ground arith)
    | inr shut ↦ inl (ground arith)
  ]
]

pub send-typed :
    (keys : Text) (s : Session) → IsDrained s → typed (send keys s) ≡ typed s ++ keys ∷ []
send-typed keys s d = elim (send-cases keys s) [
  | inl queued ↦ rw queued (sym (append_assoc (inputs s.log) s.pending (keys ∷ [])))
  | inr (i, e, o, sent) ↦ rw sent (
      ground (
        arith,
        d i,
        emit_input i keys s.log,
        append-nil (inputs s.log),
        append-nil (inputs s.log ++ keys ∷ []),
      ))
]

pub send-IsDrained : (keys : Text) (s : Session) → IsDrained s → IsDrained (send keys s)
unfolding send
send-IsDrained keys s d i = ground (arith, d i)

pub control-Quiet : (frame : Frame) (s : Session) → Quiet s (control frame s)
unfolding control
control-Quiet frame s =
    maybe_cases (Quiet s) s.socket (λ _. (refl, refl))
      λ i _. if_cases (Quiet s) _ (λ _. (emit_frame i frame s.log, refl)) (λ _. (refl, refl))

resize-Quiet : (s : Session) → Quiet s (resize s)
unfolding resize
resize-Quiet s =
    let (same, kept) = control-Quiet (resize_frame s.cols s.rows) (emit fitted s) in
    (same ∙ inputs-append s.log (fitted ∷ []) ∙ append-nil _, kept)

repeat_close-Quiet : (s : Session) → Quiet s (repeat_close s)
unfolding repeat_close
repeat_close-Quiet s =
    if_cases (Quiet s) s.close_requested (λ _. control-Quiet close_frame s) (λ _. (refl, refl))

send_open :
    (keys : Text) (s : Session) (i : ℕ)
    → s.socket ≡ some i
    → (s.sockets i).ready ≡ opened
    → send keys s ≡ emit (sent_input i keys) s
unfolding send
send_open keys s i e o = ground arith

-- Over an open socket everything is sent, in order.
send_all_open :
    (ks : List Text) (s : Session) (i : ℕ)
    → s.socket ≡ some i
    → (s.sockets i).ready ≡ opened
    → (inputs (send_all ks s).log ≡ inputs s.log ++ ks) × ((send_all ks s).pending ≡ s.pending)
unfolding send_all
send_all_open [] s i e o = (sym (append-nil _), refl)
send_all_open (keys ∷ ks) s i e o =
    let (sent, kept) = send_all_open ks (emit (sent_input i keys) s) i e o in
    subst
      (λ t.
        (inputs (send_all ks t).log ≡ inputs s.log ++ keys ∷ ks)
        × ((send_all ks t).pending ≡ s.pending))
      (sym (send_open keys s i e o))
      (
        sent
            ∙ ap (λ ys. ys ++ ks) (emit_input i keys s.log)
            ∙ append_assoc (inputs s.log) (keys ∷ []) ks,
        kept,
      )

send_pending-typed :
    (s : Session) (i : ℕ)
    → s.socket ≡ some i
    → (s.sockets i).ready ≡ opened
    → (inputs (send_pending s).log ≡ typed s) × ((send_pending s).pending ≡ [])
unfolding send_pending
send_pending-typed s i e o = send_all_open s.pending (record s { pending = [] }) i e o

pub flush-typed :
    (s : Session) (i : ℕ)
    → s.socket ≡ some i
    → (s.sockets i).ready ≡ opened
    → (inputs (flush s).log ≡ typed s) × ((flush s).pending ≡ [])
unfolding flush
flush-typed s i e o =
    let sized = resize-Same s in
    let (quiet_log, quiet_pending) = resize-Quiet s in
    let (sent, emptied) =
      send_pending-typed (resize s) i (sized.socket ∙ e)
        (ap (λ (f : ℕ → Socket). (f i).ready) sized.sockets ∙ o) in
    let (same_log, same_pending) = repeat_close-Quiet (send_pending (resize s)) in
    (same_log ∙ sent ∙ (rw (quiet_log, quiet_pending)), same_pending ∙ emptied)
