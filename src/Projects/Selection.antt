-- ===== src/Projects/Selection.antt =====
-- frontend/src/lib/projects.ts: which project is selected after a removal or a reload.
use m6t.Common.{
  ◌≡◌, refl, ◌∙◌, true, false, Option, none, some, List, [], ◌∷◌, ◌++◌, arith, if◌then◌else◌,
  or_else, any, find, Bool-cases, Text, text_eq, text_eq_iff, inl, inr,
}
use m6t.Strip.{selection_after, selection_after_lem, beside, IsAbsent}
use m6t.Projects.{
  Project, is_named, find_project, is_selected, selection_after_remove, selection_after_reload,
}

abbrev pub name_of : Project → Text
name_of p = p.name

remove_as_close :
    (projects : List Project) (name : Text) (active : Option Text)
    → selection_after_remove projects name active ≡ selection_after name_of projects name active
unfolding selection_after_remove
remove_as_close projects name none = refl
remove_as_close projects name (some a) = elim (Bool-cases (text_eq a name)) [
  | inl same ↦ rw same refl
  | inr other ↦ rw other refl
]

-- Removing the project that is selected selects its right-hand neighbour, else its left-hand one,
-- else nothing; removing another leaves the selection. The removed project is the only one of its
-- name.
pub selection_after_remove_lem :
    (before after : List Project) (p : Project) (active : Option Text)
    → IsAbsent name_of p.name before
    → IsAbsent name_of p.name after
    → selection_after_remove (before ++ p ∷ after) p.name active
      ≡ (if is_selected active p.name then beside name_of before after else active)
selection_after_remove_lem before after p none h g =
    remove_as_close (before ++ p ∷ after) p.name none
    ∙ selection_after_lem name_of before after p p.name none refl h g
selection_after_remove_lem before after p (some a) h g =
    remove_as_close (before ++ p ∷ after) p.name (some a)
    ∙ selection_after_lem name_of before after p p.name (some a) refl h g

any-find :
    (name : Text) (projects : List Project)
    → any (is_named name) projects ≡ true
    → (p : Project) × (find (is_named name) projects ≡ some p)
any-find name [] h = cc
any-find name (p ∷ projects) h = elim (Bool-cases (is_named name p)) [
  | inl here ↦ (p, rw here refl)
  | inr other ↦
      let (q, found) = any-find name projects (ground (arith, h, other)) in (q, rw other found)
]

find-none :
    (name : Text) (projects : List Project)
    → any (is_named name) projects ≡ false
    → find (is_named name) projects ≡ none
find-none name [] h = refl
find-none name (q ∷ projects) h = ground (arith, h, find-none name projects)

-- After a reload the project that is selected is the one that was, if it is still there, and else the
-- first.
pub find_project-selection_after_reload :
    (first : Project) (projects : List Project) (active : Option Text)
    → find_project (first ∷ projects) (selection_after_reload (first ∷ projects) active)
      ≡ some (or_else (find_project (first ∷ projects) active) first)
unfolding find_project selection_after_reload
find_project-selection_after_reload first projects none =
    ground (arith, text_eq_iff first.name first.name)
find_project-selection_after_reload first projects (some name) =
    elim (Bool-cases (any (is_named name) (first ∷ projects))) [
      | inl there ↦
          let (p, found) = any-find name (first ∷ projects) there in rw (there, found) refl
      | inr gone ↦
          rw (gone, find-none name (first ∷ projects) gone)
            (ground (arith, text_eq_iff first.name first.name))
    ]
