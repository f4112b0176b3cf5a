-- ===== src/Projects/Order.antt =====
-- frontend/src/lib/projects.ts: which projects stand in the ordered strip, and how often.
use m6t.Common.{
  ◌≡◌, refl, sym, ap, ◌∙◌, false, not, Option, none, some, List, [], ◌∷◌, ◌++◌, Memᴰ, arith, ◌==◌,
  ◌+◌, ℕ, suc, if◌then◌else◌, if_cases, maybe, find, filter, All, All-Memᴰ, All-of, All-map, any,
  subst, inl, inr, Option-cases, filter-from, find-Memᴰ, Text, text_eq, text_eq_iff,
}
use mathlib.Core.List.Memᴰ
use m6t.Projects.{Project, is_named, named_in, includes, order_projects}

-- The registry's list: no two entries are one project or have one name.
abbrev pub AreDistinct : List Project → Type 0
AreDistinct [] = Unit
AreDistinct (p ∷ projects) =
    All (λ q. ((q.object == p.object) ≡ false) × (text_eq q.name p.name ≡ false)) projects
    × AreDistinct projects

-- The entries of a list that are one project.
abbrev pub times : ℕ → List Project → ℕ
times object [] = 0
times object (p ∷ projects) =
    let rest = times object projects in if p.object == object then suc rest else rest

-- How often a drag names a project.
abbrev pub mentions : Text → List Text → ℕ
mentions name [] = 0
mentions name (n ∷ names) =
    let rest = mentions name names in if text_eq n name then suc rest else rest

times-append :
    (object : ℕ) (ps qs : List Project)
    → times object (ps ++ qs) ≡ times object ps + times object qs
times-append object [] qs = omega arith
times-append object (p ∷ ps) qs = ground (arith, times-append object ps qs)

includes-times :
    (named : List Project) (x : Project) → includes named x ≡ not (times x.object named == 0)
includes-times [] x = refl
includes-times (p ∷ named) x = ground (arith, includes-times named x)

times-filter :
    (named projects : List Project) (x : Project)
    → times x.object (filter (λ p. not (includes named p)) projects)
      ≡ (if includes named x then 0 else times x.object projects)
times-filter named [] x = ground arith
times-filter named (p ∷ projects) x = ground (
  arith,
  λ (e : p.object ≡ x.object). ap (λ o. any (λ (q : Project). q.object == o) named) e,
  times-filter named projects x,
)

-- A project that is not in a list.
abbrev IsAbsent : ℕ → List Project → Type 0
IsAbsent object projects = All (λ q. (q.object == object) ≡ false) projects

times-absent :
    (object : ℕ) (projects : List Project) → IsAbsent object projects → times object projects ≡ 0
times-absent object [] h = refl
times-absent object (p ∷ projects) h = ground (arith, h, times-absent object projects h.1)

abbrev list_of : Option Project → List Project
list_of o = maybe o [] λ p. p ∷ []

find-absent :
    (object : ℕ) (name : Text) (projects : List Project)
    → IsAbsent object projects
    → times object (list_of (find (is_named name) projects)) ≡ 0
find-absent object name [] h = refl
find-absent object name (p ∷ projects) h =
    if_cases (λ o. times object (list_of o) ≡ 0) (is_named name p) (λ _. ground (arith, h.0))
      (λ _. find-absent object name projects h.1)

head-IsAbsent :
    (p : Project) (projects : List Project)
    → AreDistinct (p ∷ projects)
    → IsAbsent p.object projects
head-IsAbsent p projects d =
    All-map (λ (q : Project). ((q.object == p.object) ≡ false) × (text_eq q.name p.name ≡ false))
      (λ (q : Project). (q.object == p.object) ≡ false) (λ q h. h.0) projects d.0

times-one :
    (projects : List Project) (x : Project)
    → AreDistinct projects
    → Memᴰ x projects
    → times x.object projects ≡ 1
times-one [] x d m = elim m [ ]
times-one (p ∷ projects) x d (Memᴰ.head same) =
    subst (λ (y : Project). times y.object (p ∷ projects) ≡ 1) (sym same)
      (ground (arith, times-absent p.object projects (head-IsAbsent p projects d)))
times-one (p ∷ projects) x d (Memᴰ.tail m) =
    ground (arith, All-Memᴰ _ projects d.0 m, times-one projects x d.1 m)

find-times :
    (projects : List Project) (name : Text) (x : Project)
    → AreDistinct projects
    → Memᴰ x projects
    → times x.object (list_of (find (is_named name) projects))
      ≡ (if text_eq name x.name then 1 else 0)
find-times [] name x d m = elim m [ ]
find-times (p ∷ projects) name x d (Memᴰ.head same) =
    subst
      (λ (y : Project).
        times y.object (list_of (find (is_named name) (p ∷ projects)))
        ≡ (if text_eq name y.name then 1 else 0))
      (sym same)
      (if_cases (λ o. times p.object (list_of o) ≡ (if text_eq name p.name then 1 else 0))
        (is_named name p)
        (λ own. ground (arith, own, text_eq_iff p.name name, text_eq_iff name p.name))
        (λ other. ground (
          arith,
          other,
          text_eq_iff p.name name,
          text_eq_iff name p.name,
          find-absent p.object name projects (head-IsAbsent p projects d),
        )))
find-times (p ∷ projects) name x d (Memᴰ.tail m) =
    let apart = All-Memᴰ _ projects d.0 m in
    if_cases (λ o. times x.object (list_of o) ≡ (if text_eq name x.name then 1 else 0))
      (is_named name p)
      (λ own. ground (
        arith,
        own,
        apart,
        text_eq_iff p.name name,
        text_eq_iff x.name p.name,
        text_eq_iff name x.name,
      ))
      (λ _. find-times projects name x d.1 m)

named_in-times :
    (projects : List Project) (names : List Text) (x : Project)
    → AreDistinct projects
    → Memᴰ x projects
    → times x.object (named_in projects names) ≡ mentions x.name names
unfolding named_in
named_in-times projects [] x d m = refl
named_in-times projects (name ∷ names) x d m =
    one_more (find (is_named name) projects)
    ∙ ground (arith, find-times projects name x d m, named_in-times projects names x d m)
  where
    one_more :
        (o : Option Project)
        → times x.object (maybe o (named_in projects names) λ p. p ∷ named_in projects names)
          ≡ times x.object (list_of o) + times x.object (named_in projects names)
    one_more none = omega arith
    one_more (some p) = ground arith

named_in-Memᴰ :
    (projects : List Project) (names : List Text) {x : Project}
    → Memᴰ x (named_in projects names)
    → Memᴰ x projects
unfolding named_in
named_in-Memᴰ projects [] m = elim m [ ]
named_in-Memᴰ projects (name ∷ names) {x} m = elim (Option-cases (find (is_named name) projects)) [
  | inl nowhere ↦ named_in-Memᴰ projects names (
      subst (Memᴰ x)
        (ap (λ o. maybe o (named_in projects names) λ (p : Project). p ∷ named_in projects names)
          nowhere)
        m)
  | inr (p, found) ↦
      elim (Memᴰ.cases_cons (
        subst (Memᴰ x)
          (ap (λ o. maybe o (named_in projects names) λ (q : Project). q ∷ named_in projects names)
            found)
          m)) [
            | inl own ↦
                subst (λ y. Memᴰ y projects) (sym own) (find-Memᴰ (is_named name) projects found)
            | inr rest ↦ named_in-Memᴰ projects names rest
          ]
]

order_projects-from :
    (projects : List Project) (names : List Text) (x : Project)
    → Memᴰ x (order_projects projects names)
    → Memᴰ x projects
unfolding order_projects
order_projects-from projects names x m = elim (Memᴰ.append_cases (named_in projects names) m) [
  | inl named ↦ named_in-Memᴰ projects names named
  | inr rest ↦ filter-from (λ p. not (includes (named_in projects names) p)) projects rest
]

-- The projects in the order of a drag, of a list in which no two are one project or have one name:
-- a project stands there as often as the drag names it, and once where it does not name it; and there
-- is no project that the list has not, whatever unknown names the drag gives.
pub order_projects-times :
    (projects : List Project) (names : List Text)
    → AreDistinct projects
    → All
        (λ x.
          times x.object (order_projects projects names)
          ≡ (if mentions x.name names == 0 then 1 else mentions x.name names))
        projects
      × All (λ x. Memᴰ x projects) (order_projects projects names)
unfolding order_projects
order_projects-times projects names d = (
  All-of _ projects (λ x m. ground (
    arith,
    times-append x.object (named_in projects names)
        (filter (λ p. not (includes (named_in projects names) p)) projects),
    times-filter (named_in projects names) projects x,
    includes-times (named_in projects names) x,
    named_in-times projects names x d m,
    times-one projects x d m,
  )),
  All-of _ (order_projects projects names) (λ x m. order_projects-from projects names x m),
)
