-- ===== src/Terminal/Session/Grows.antt =====
-- frontend/src/lib/terminalSession.ts: by how much each method lets the typed texts grow.
use m6t.Common.{
  ℕ, ◌≡◌, refl, sym, ap, ◌∙◌, ◌≢◌, Bool, true, false, some, List, [], ◌∷◌, ◌++◌, append-nil, arith,
  if_cases, maybe_cases, Text,
}
use m6t.Terminal.Session.{
  opened, Handlers, attached, delivering, detached, Socket, Status, running, Effect, reset_screen,
  disposed_terminal, connected, sent_frame, closed_socket, reported, Session, emit, report, control,
  send, attach, released, detach, kept_to_deliver, deliver_pending_close, drop_socket, dispose,
  flush, named, resync, open_resolved, on_open,
}
use m6t.Terminal.Protocol.{Frame, close_frame}
use m6t.Terminal.Session.Invariant.{Same, control-Same}
use m6t.Terminal.Session.Typed.{
  inputs, inputs-append, typed, IsDrained, Quiet, Quiet-typed, emit_frame, send-typed,
  send-IsDrained, control-Quiet, flush-typed,
}

-- One event: the texts typed so far grow by what it types, and nothing waits at an open socket.

pub record Grows (before : List Text) (t : Session) (keys : List Text) : Type 0 where
  pub grown : typed t ≡ before ++ keys
  pub drained : IsDrained t

pub Quiet-Grows :
    (s t : Session) → Quiet s t → (IsDrained s → IsDrained t) → IsDrained s → Grows (typed s) t []
Quiet-Grows s t q keep d = record { grown = Quiet-typed s t q; drained = keep d }

pub same-Grows : (s : Session) → IsDrained s → Grows (typed s) s []
same-Grows s d = Quiet-Grows s s (refl, refl) (λ k. k) d

pub report-Grows :
    (status : Status) (s : Session) → IsDrained s → Grows (typed s) (report status s) []
unfolding report
report-Grows status s d =
    if_cases (λ t. Grows (typed s) t []) s.disposed (λ _. same-Grows s d)
      (λ _.
        Quiet-Grows s (emit (reported status) s)
          (inputs-append s.log (reported status ∷ []) ∙ append-nil _, refl) (λ k. k) d)

-- What happens at the current socket, or what leaves the sockets alone, keeps them drained.
Same-IsDrained : (s t : Session) → Same s t → t.pending ≡ s.pending → IsDrained s → IsDrained t
Same-IsDrained s t e p d i = ground (arith, d i, ap (λ (f : ℕ → Socket). f i) e.sockets)

pub control-Grows : (f : Frame) (s : Session) → IsDrained s → Grows (typed s) (control f s) []
control-Grows f s d =
    Quiet-Grows s (control f s) (control-Quiet f s)
      (Same-IsDrained s (control f s) (control-Same f s) (control-Quiet f s).1) d

pub send-Grows :
    (keys : Text) (s : Session) → IsDrained s → Grows (typed s) (send keys s) (keys ∷ [])
send-Grows keys s d = record { grown = send-typed keys s d; drained = send-IsDrained keys s d }

attach-Grows : (id : Text) (s : Session) → Grows (typed s) (attach id s) []
unfolding attach
attach-Grows id s = record {
  grown =
      Quiet-typed s (attach id s)
        (inputs-append s.log (connected s.made id ∷ []) ∙ append-nil _, refl);
  drained = λ i. ground arith;
}

detach-Grows : (s : Session) → IsDrained s → Grows (typed s) (detach s) []
unfolding detach
detach-Grows s d =
    maybe_cases (λ t. Grows (typed s) t []) s.socket (λ _. same-Grows s d)
      λ i _. record {
        grown =
            Quiet-typed s (released i s)
              (inputs-append s.log (closed_socket i ∷ []) ∙ append-nil _, refl);
        drained = λ j. ground arith;
      }

kept_to_deliver-Grows :
    (i : ℕ) (s : Session) → IsDrained s → Grows (typed s) (kept_to_deliver i s) []
kept_to_deliver-Grows i s d = record {
  grown = sym (append-nil _);
  drained = λ j. ground (arith, d j);
}

deliver-Grows : (s : Session) → IsDrained s → Grows (typed s) (deliver_pending_close s).0 []
unfolding deliver_pending_close
deliver-Grows s d =
    maybe_cases {B = Session × Bool} (λ t. Grows (typed s) t.0 []) s.socket (λ _. same-Grows s d)
      λ i _.
        if_cases {A = Session × Bool} (λ t. Grows (typed s) t.0 []) _ (λ _. same-Grows s d)
          (λ _. kept_to_deliver-Grows i s d)

pub emit-Grows :
    (e : Effect) (s : Session) → inputs (e ∷ []) ≡ [] → IsDrained s → Grows (typed s) (emit e s) []
emit-Grows e s q d =
    Quiet-Grows s (emit e s)
      (inputs-append s.log (e ∷ []) ∙ ap (λ ks. inputs s.log ++ ks) q ∙ append-nil _, refl) (λ k. k)
      d

-- A step after a quiet one.
pub Grows-after :
    {before : List Text} {t u : Session} {keys : List Text}
    → Grows before t []
    → Grows (typed t) u keys
    → Grows before u keys
Grows-after {before} {keys} a b = record {
  grown = b.grown ∙ ap (λ ks. ks ++ keys) (a.grown ∙ append-nil before);
  drained = b.drained;
}

pub resync-Grows : (s : Session) → IsDrained s → Grows (typed s) (resync s) []
unfolding resync
resync-Grows s d =
    maybe_cases (λ t. Grows (typed s) t []) (named s.session_id) (λ _. same-Grows s d)
      λ id _.
        let off = detach-Grows s d in
        let wiped = emit-Grows reset_screen (detach s) refl off.drained in
        Grows-after off (Grows-after wiped (attach-Grows id (emit reset_screen (detach s))))

drop_socket-Grows :
    (delivered : Bool) (s : Session) → IsDrained s → Grows (typed s) (drop_socket delivered s) []
drop_socket-Grows true s d = record { grown = sym (append-nil _); drained = λ i. ground arith }
drop_socket-Grows false s d = detach-Grows s d

pub dispose-Grows : (s : Session) → IsDrained s → Grows (typed s) (dispose s) []
unfolding dispose
dispose-Grows s d =
    let kept = deliver-Grows (record s { disposed = true }) d in
    let (t, delivered) = deliver_pending_close (record s { disposed = true }) in
    let dropped = drop_socket-Grows delivered t kept.drained in
    Grows-after kept (
      Grows-after dropped
        (emit-Grows disposed_terminal (drop_socket delivered t) refl dropped.drained))

pub open_resolved-Grows :
    (id : Text) (s : Session) → IsDrained s → Grows (typed s) (open_resolved id s) []
unfolding open_resolved
open_resolved-Grows id s d =
    if_cases (λ t. Grows (typed s) t []) s.disposed
      (λ _.
        let a = attach-Grows id (record (record s { session_id = some id; awaiting = false }) {
          close_requested = true;
        }) in
        Grows-after a (deliver-Grows _ a.drained))
      (λ _.
        let a = attach-Grows id (record s { session_id = some id; awaiting = false }) in
        Grows-after a (report-Grows running _ a.drained))

flush-Grows :
    (s : Session) (i : ℕ)
    → s.socket ≡ some i
    → (s.sockets i).ready ≡ opened
    → Grows (typed s) (flush s) []
flush-Grows s i e o =
    let (sent, emptied) = flush-typed s i e o in
    record { grown = rw (sent, emptied); drained = λ j _ _. emptied }

pub on_open-Grows :
    (i : ℕ) (h : Handlers) (s : Session)
    → (h ≡ attached → s.socket ≡ some i)
    → (h ≡ detached → s.socket ≢ some i)
    → (s.sockets i).ready ≡ opened
    → ((j : ℕ) → j ≢ i → s.socket ≡ some j → (s.sockets j).ready ≡ opened → s.pending ≡ [])
    → Grows (typed s) (on_open i h s) []
unfolding on_open
on_open-Grows i attached s e n o d = flush-Grows s i (e refl) o
on_open-Grows i delivering s e n o d = record {
  grown =
      ap (λ ks. ks ++ s.pending)
        (inputs-append (s.log ++ sent_frame i close_frame ∷ []) (closed_socket i ∷ [])
          ∙ append-nil _
          ∙ emit_frame i close_frame s.log)
      ∙ sym (append-nil _);
  drained = λ j. ground (arith, d j);
}
on_open-Grows i detached s e n o d = record {
  grown = sym (append-nil _);
  drained = λ j. ground (arith, d j, n refl);
}
