-- ===== src/SessionHook/Settled.antt =====
-- frontend/src/lib/useSession.ts: what is live and not yet written has a timer.
use m6t.Common.{
  ◌≡◌, refl, sym, ap, ◌∙◌, true, false, not, ◌&&◌, Option, none, some, List, [], ◌∷◌, arith,
  if_cases, or_else, maybe_cases, length, ltb, any, Text, text_eq, text_eq_refl, text_eq_iff,
  contains,
}
use m6t.Workspace.{Session, empty_session, restored_workspace}
use m6t.SessionHook.{
  Request, selects, saves, Wiring, Dependencies, SessionHook, new_hook, ask, load,
  restore_selection, same_dependencies, dependencies, hydrate_in, hydrate, hydrated_with,
  same_session, record_live, render, fire, set_workspace,
}
use m6t.SessionHook.Reached.{
  Event, loads, renders, hydrates, fires, sets, handle, Reachable, begin, turn,
}

-- The sessions that the store was asked to save, latest first.

unfoldable pub saved_sessions : List Request → List Session
saved_sessions [] = []
saved_sessions (saves session ∷ asked) = session ∷ saved_sessions asked
saved_sessions (other ∷ asked) = saved_sessions asked

-- What the store holds, as far as the hook knows: the last save, or what was read.
abbrev pub stored : List Session → Option Session → Session
stored [] loaded = or_else loaded empty_session
stored (session ∷ earlier) loaded = session

module _ (json : Session → Text) where
  -- The parts of the hook that decide on a write.
  pub record IsSettled (h : SessionHook) : Type 0 where
    pub kept : h.written ≡ stored (saved_sessions h.asked) h.loaded
    pub timed : h.timer ≡ false → same_session json h.current h.written ≡ true
    pub unread : h.loaded ≡ none → (h.timer ≡ false) × (saved_sessions h.asked ≡ [])

  -- A request that is not a save.
  ask-IsSettled :
      (h : SessionHook) (request : Request)
      → saved_sessions (request ∷ h.asked) ≡ saved_sessions h.asked
      → IsSettled h
      → IsSettled (ask request h)
  ask-IsSettled h request same s = record {
    kept = s.kept ∙ ap (λ l. stored l h.loaded) (sym same);
    timed = s.timed;
    unread = λ e. ((s.unread e).0, same ∙ (s.unread e).1);
  }

  restore_selection-IsSettled :
      (w : Wiring) (h : SessionHook) → IsSettled h → IsSettled (restore_selection w h)
  unfolding restore_selection saved_sessions
  restore_selection-IsSettled w h s =
      maybe_cases IsSettled h.loaded (λ _. s)
        (λ state _.
          if_cases IsSettled (h.restoring && ltb 0 (length w.names))
            (λ _.
              maybe_cases IsSettled (restored_workspace state).active_project (λ _. chosen)
                (λ name _.
                  if_cases IsSettled (any (text_eq name) w.names)
                    (λ _. ask-IsSettled (record h { restoring = false }) (selects name) refl chosen)
                    (λ _. chosen)))
            (λ _. s))
    where
      chosen : IsSettled (record h { restoring = false })
      chosen = record { kept = s.kept; timed = s.timed; unread = s.unread }

  hydrate_in-IsSettled :
      (name path : Option Text) (h : SessionHook) → IsSettled h → IsSettled (hydrate_in name path h)
  unfolding saved_sessions
  hydrate_in-IsSettled none path h s = s
  hydrate_in-IsSettled (some name) none h s = s
  hydrate_in-IsSettled (some name) (some path) h s =
      if_cases IsSettled (contains name h.hydrated) (λ _. s)
        (λ _. record { kept = s.kept; timed = s.timed; unread = s.unread })

  hydrate-IsSettled :
      (w : Wiring) (now : Dependencies) (h : SessionHook)
      → IsSettled h
      → IsSettled (hydrate w now h)
  unfolding hydrate
  hydrate-IsSettled w now h s =
      let seen : IsSettled (record h { last = now }) = record {
        kept = s.kept;
        timed = s.timed;
        unread = s.unread;
      } in
      if_cases IsSettled (same_dependencies h.last now) (λ _. s)
        (λ _.
          if_cases IsSettled (now.is_loaded && not now.restoring)
            (λ _. hydrate_in-IsSettled w.active_name w.active_path (record h { last = now }) seen)
            (λ _. seen))

  record_live-IsSettled :
      (w : Wiring) (h : SessionHook) → IsSettled h → IsSettled (record_live json w h)
  unfolding record_live
  record_live-IsSettled w h s =
      maybe_cases IsSettled h.loaded (λ _. s)
        (λ state read. record {
          kept = s.kept;
          timed = λ e. ground (arith, e);
          unread = λ e. cc (read, e);
        })

  fire-IsSettled : (h : SessionHook) → IsSettled h → IsSettled (fire h)
  unfolding fire saved_sessions same_session
  fire-IsSettled h s =
      if_cases IsSettled h.timer
        (λ set. record {
          kept = refl;
          timed = λ _. text_eq_refl (json h.current);
          unread = λ e. cc (set, (s.unread e).0);
        })
        (λ _. s)

  load-IsSettled :
      (answer : Option Session) (h : SessionHook)
      → h.loaded ≡ none
      → IsSettled h
      → IsSettled (load answer h)
  unfolding load same_session
  load-IsSettled answer h unread s = record {
    kept = ap (λ l. stored l (some (or_else answer empty_session))) (sym (s.unread unread).1);
    timed = λ _. text_eq_refl (json (or_else answer empty_session));
    unread = λ e. cc;
  }

  Reachable-IsSettled : (P : Event → Type 0) (h : SessionHook) → Reachable json P h → IsSettled h
  unfolding handle new_hook render hydrated_with set_workspace saved_sessions same_session
  Reachable-IsSettled P _ begin = record {
    kept = refl;
    timed = λ _. text_eq_refl (json empty_session);
    unread = λ _. (refl, refl);
  }
  Reachable-IsSettled P _ (turn {h = h} (loads answer) r unread _) =
      load-IsSettled answer h unread (Reachable-IsSettled P h r)
  Reachable-IsSettled P _ (turn {h = h} (renders w) r ok _) = record_live-IsSettled w _ (
      hydrate-IsSettled w (dependencies w h) _
        (restore_selection-IsSettled w h (Reachable-IsSettled P h r)))
  Reachable-IsSettled P _ (turn {h = h} (hydrates name path saved) r ok _) =
      let s = Reachable-IsSettled P h r in
      record { kept = s.kept; timed = s.timed; unread = s.unread }
  Reachable-IsSettled P _ (turn {h = h} fires r ok _) = fire-IsSettled h (Reachable-IsSettled P h r)
  Reachable-IsSettled P _ (turn {h = h} (sets patch) r ok _) =
      let s = Reachable-IsSettled P h r in
      record { kept = s.kept; timed = s.timed; unread = s.unread }

-- Whatever happens, nothing is saved before the saved session was read; and while no write is due, the
-- session as it was last recorded serialises to what the store was last asked to save, or to what was
-- read from it where nothing was saved yet.
pub Reachable-stored :
    (json : Session → Text) (P : Event → Type 0) (h : SessionHook)
    → Reachable json P h
    → (h.loaded ≡ none → saved_sessions h.asked ≡ [])
      × (h.timer ≡ false → json h.current ≡ json (stored (saved_sessions h.asked) h.loaded))
unfolding same_session
Reachable-stored json P h r =
    let s = Reachable-IsSettled json P h r in
    (
      λ e. (s.unread e).1,
      λ e. (text_eq_iff (json h.current) (json h.written)).0 (s.timed e) ∙ ap json s.kept,
    )
