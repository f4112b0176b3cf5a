-- ===== src/Health/Shown.antt =====
-- frontend/src/lib/useHealth.ts: the snapshot on screen is of the selection on screen.
use m6t.Common.{
  ◌≡◌, refl, ◌⊎◌, inl, inr, true, false, Option, none, some, Memᴰ, arith, if_cases, maybe_cases,
  maybe, Text, text_eq, text_eq_iff,
}
use m6t.Health.{
  no_health, Selection, Asked, Watched, asking, new_watched, read, retarget, is_current, Answer,
  answered, failed, publish, next_round, read_ends, on_health,
}

-- What can happen; an answer is that of the read in flight. The effect of a changed selection depends
-- on the project and the file, so a render in which the root alone changes is a step of its own.

pub data Step (w : Watched) : Watched → Type 0 where
  selecting : (selection : Selection) → Step w (retarget selection w)
  moving : (root : Option Text) → Step w (record w { root = root })
  refreshing : Step w (read w)
  changing : (root : Text) → Step w (on_health root w)
  answering :
      (asked : Asked) (answer : Answer) → w.reading ≡ some asked → Step w (read_ends asked answer w)

pub data Reachable : Watched → Type 0 where
  mounted : Reachable new_watched
  after : {w v : Watched} → Reachable w → Step w v → Reachable v

-- Nothing is shown, or what the backend answered about what is on screen.
abbrev pub IsOwn : Watched → Type 0
IsOwn w =
    (w.snapshot ≡ no_health)
    ⊎ ((asked : Asked) × (w.target ≡ some asked) × Memᴰ (asked, w.snapshot) w.answers)

read-IsOwn : (w : Watched) → IsOwn w → IsOwn (read w)
unfolding read
read-IsOwn w own = maybe_cases IsOwn w.reading (λ _. own) (λ _ _. own)

is_current_eq :
    (target : Option Asked) (asked : Asked) → is_current target asked ≡ true → target ≡ some asked
is_current_eq none asked h = cc
is_current_eq (some target) asked h =
    let project = (text_eq_iff target.project asked.project).0 (ground (arith, h)) in
    let rel = (text_eq_iff target.rel asked.rel).0 (ground (arith, h)) in
    λ i. some (record { project = project i; rel = rel i })

next_round-IsOwn : (w : Watched) → IsOwn w → IsOwn (next_round w)
next_round-IsOwn w own = if_cases IsOwn w.stale (λ _. own) (λ _. own)

publish-IsOwn :
    (asked : Asked) (answer : Answer) (w : Watched) → IsOwn w → IsOwn (publish asked answer w)
unfolding publish
publish-IsOwn asked (answered snapshot) w own =
    if_cases IsOwn (is_current w.target asked)
      (λ here. inr (asked, is_current_eq w.target asked here, Memᴰ.head refl))
      (λ _. elim own [
        | inl nothing ↦ inl nothing
        | inr (about, same, heard) ↦ inr (about, same, Memᴰ.tail heard)
      ])
publish-IsOwn asked (failed message) w own =
    if_cases IsOwn (is_current w.target asked) (λ _. own) (λ _. own)

retarget-IsOwn : (selection : Selection) (w : Watched) → IsOwn (retarget selection w)
unfolding retarget
retarget-IsOwn selection w =
    maybe_cases IsOwn (asking selection) (λ _. inl refl)
      (λ _ _.
        read-IsOwn
          (record w {
            root = selection.root;
            target = asking selection;
            snapshot = no_health;
            error = none;
          })
          (inl refl))

Step-IsOwn : {w v : Watched} → Step w v → IsOwn w → IsOwn v
unfolding read_ends on_health
Step-IsOwn {w} (selecting selection) own = retarget-IsOwn selection w
Step-IsOwn {w} (moving root) own = own
Step-IsOwn {w} refreshing own = read-IsOwn w own
Step-IsOwn {w} (changing root) own =
    if_cases IsOwn (maybe w.root false (text_eq root)) (λ _. read-IsOwn w own) (λ _. own)
Step-IsOwn {w} (answering asked answer same) own =
    next_round-IsOwn (publish asked answer w) (publish-IsOwn asked answer w own)

-- Whatever is selected and however late an answer comes, the snapshot on screen is empty or one that
-- the backend gave for the project and file that are on screen.
pub Reachable-IsOwn : {w : Watched} → Reachable w → IsOwn w
unfolding new_watched
Reachable-IsOwn mounted = inl refl
Reachable-IsOwn (after r step) = Step-IsOwn step (Reachable-IsOwn r)
