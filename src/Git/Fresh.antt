-- ===== src/Git/Fresh.antt =====
-- frontend/src/lib/useGitStatus.ts: no request for a read is lost.
use m6t.Common.{
  ◌≡◌, refl, sym, ap, ◌∙◌, inl, inr, true, false, not, Option, none, some, some_inj, List, [], ◌∷◌,
  arith, if_cases, Bool-cases, All, All-map, filter, Text, text_eq, text_eq_iff, insert, contains,
  add, contains-add, remove, contains-remove,
}
use m6t.Git.{Status}
use m6t.Git.Watch.{
  Mark, asked, began, ReadResult, status_read, read_failed, Watch, new_watch, begin_at, read_unless,
  read, shows, publish, next_round, read_ends, show_project, on_git, close_project,
}

-- What can happen; an answer is that of the read in flight.

pub data Step (w : Watch) : Watch → Type 0 where
  showing : (root : Option Text) → Step w (show_project root w)
  refreshing : Step w (read w)
  changing : (root : Text) → Step w (on_git root w)
  answering :
      (root : Text) (result : ReadResult) → w.reading ≡ some root → Step w (read_ends root result w)
  closing : (root : Text) → Step w (close_project root w)

pub data Reachable : Watch → Type 0 where
  mounted : Reachable new_watch
  after : {w v : Watch} → Reachable w → Step w v → Reachable v

-- The last thing that happened to the reads is that one of the active project began.
abbrev pub IsCurrent : Watch → Type 0
IsCurrent w =
    (root : Text) → w.target ≡ some root → (older : List Mark) × (w.marks ≡ began root ∷ older)

abbrev pub AreHeld : List Text → List (Text × Status) → Type 0
AreHeld held statuses = All (λ entry. contains entry.0 held ≡ true) statuses

pub record IsFresh (w : Watch) : Type 0 where
  pub current : w.stale ≡ false → IsCurrent w
  pub idle : w.reading ≡ none → w.stale ≡ false
  pub kept : AreHeld w.held w.statuses

true-ne-false : true ≡ false → ⊥
true-ne-false e = cc

some-ne-none : {root : Text} → some root ≡ none → ⊥
some-ne-none e = cc

begin_at-IsFresh :
    (target : Option Text) (w : Watch)
    → w.target ≡ target
    → AreHeld w.held w.statuses
    → IsFresh (begin_at target w)
begin_at-IsFresh none w e k = record {
  current = λ _ root same. absurd (some-ne-none (sym same ∙ e));
  idle = λ _. refl;
  kept = k;
}
begin_at-IsFresh (some here) w e k = record {
  current = λ _ root same. (w.marks, ap (λ r. began r ∷ w.marks) (some_inj (sym e ∙ same)));
  idle = λ h. refl;
  kept = k;
}

read_unless-IsFresh :
    (reading : Option Text) (w : Watch)
    → w.reading ≡ reading
    → AreHeld w.held w.statuses
    → IsFresh (read_unless reading w)
read_unless-IsFresh none w e k = begin_at-IsFresh w.target w refl k
read_unless-IsFresh (some root) w e k = record {
  current = λ h. absurd (true-ne-false h);
  idle = λ h. absurd (some-ne-none (sym e ∙ h));
  kept = k;
}

read-IsFresh : (w : Watch) → AreHeld w.held w.statuses → IsFresh (read w)
unfolding read
read-IsFresh w k = read_unless-IsFresh w.reading (record w { marks = asked ∷ w.marks }) refl k

insert-AreHeld :
    (held : List Text) (root : Text) (status : Status) (statuses : List (Text × Status))
    → contains root held ≡ true
    → AreHeld held statuses
    → AreHeld held (insert root status statuses)
unfolding insert
insert-AreHeld held root status [] h k = (h, tt)
insert-AreHeld held root status ((r, s) ∷ statuses) h k =
    if_cases (AreHeld held) (text_eq r root) (λ _. k)
      (λ _. (k.0, insert-AreHeld held root status statuses h k.1))

add-AreHeld :
    (held : List Text) (root : Text) (statuses : List (Text × Status))
    → AreHeld held statuses
    → AreHeld (add root held) statuses
add-AreHeld held root statuses k =
    All-map (λ (entry : Text × Status). contains entry.0 held ≡ true)
      (λ (entry : Text × Status). contains entry.0 (add root held) ≡ true)
      (λ entry h. ground (arith, h, contains-add root entry.0 held)) statuses k

remove-AreHeld :
    (held : List Text) (root : Text) (statuses : List (Text × Status))
    → AreHeld held statuses
    → AreHeld (remove root held) (filter (λ entry. not (text_eq entry.0 root)) statuses)
remove-AreHeld held root [] k = tt
remove-AreHeld held root (entry ∷ statuses) k =
    let rest = remove-AreHeld held root statuses k.1 in
    elim (Bool-cases (text_eq entry.0 root)) [
      | inl closed ↦ rw closed rest
      | inr other ↦ rw other (
        ground (
          arith,
          k.0,
          other,
          contains-remove root entry.0 held,
          text_eq_iff root entry.0,
          text_eq_iff entry.0 root,
        ),
        rest,
      )
    ]

next_round-IsFresh :
    (w : Watch)
    → (w.stale ≡ false → IsCurrent w)
    → AreHeld w.held w.statuses
    → IsFresh (next_round w)
next_round-IsFresh w c k =
    if_cases IsFresh w.stale (λ _. begin_at-IsFresh w.target w refl k)
      (λ settled. record { current = c; idle = λ _. settled; kept = k })

read_ends-IsFresh :
    (root : Text) (result : ReadResult) (w : Watch) → IsFresh w → IsFresh (read_ends root result w)
unfolding read_ends publish
read_ends-IsFresh root result w f =
    if_cases (λ (x : Watch). IsFresh (next_round x)) (contains root w.held)
      (λ here. published result here) (λ _. next_round-IsFresh w f.current f.kept)
  where
    published :
        (r : ReadResult) → contains root w.held ≡ true → IsFresh (next_round (publish root r w))
    published (status_read status) here =
        next_round-IsFresh (publish root (status_read status) w) f.current
          (insert-AreHeld w.held root status w.statuses here f.kept)
    published (read_failed message) here =
        next_round-IsFresh (publish root (read_failed message) w) f.current f.kept

show_project-IsFresh : (root : Option Text) (w : Watch) → IsFresh w → IsFresh (show_project root w)
unfolding show_project
show_project-IsFresh none w f = record {
  current = λ _ root same. absurd (some-ne-none (sym same));
  idle = f.idle;
  kept = f.kept;
}
show_project-IsFresh (some root) w f =
    read-IsFresh (record w { target = some root; error = none; held = add root w.held })
      (add-AreHeld w.held root w.statuses f.kept)

Step-IsFresh : {w v : Watch} → Step w v → IsFresh w → IsFresh v
unfolding on_git close_project
Step-IsFresh {w} (showing root) f = show_project-IsFresh root w f
Step-IsFresh {w} refreshing f = read-IsFresh w f.kept
Step-IsFresh {w} (changing root) f =
    if_cases IsFresh (shows w.target root) (λ _. read-IsFresh w f.kept) (λ _. f)
Step-IsFresh {w} (answering root result same) f = read_ends-IsFresh root result w f
Step-IsFresh {w} (closing root) f = record {
  current = f.current;
  idle = f.idle;
  kept = remove-AreHeld w.held root w.statuses f.kept;
}

pub Reachable-IsFresh : {w : Watch} → Reachable w → IsFresh w
unfolding new_watch
Reachable-IsFresh mounted = record {
  current = λ _ root same. absurd (some-ne-none (sym same));
  idle = λ _. refl;
  kept = tt;
}
Reachable-IsFresh (after r step) = Step-IsFresh step (Reachable-IsFresh r)
