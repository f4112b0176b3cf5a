-- ===== src/Health/Groups.antt =====
-- frontend/src/lib/health.ts: grouping by kind loses no object and keeps their order.
use m6t.Common.{
  ◌≡◌, refl, ap, ◌∙◌, Bool, false, Option, none, some, List, [], ◌∷◌, ◌++◌, append_assoc, arith,
  if◌then◌else◌, or_else, Bool-cases, inl, inr, any, filter, Text, text_eq, text_eq_iff, lookup,
  lookup-insert,
}
use m6t.Health.{ObjectStatus, file_under, grouped, by_kind}

abbrev pub of_kind : Text → ObjectStatus → Bool
of_kind kind object = text_eq object.kind kind

filter_none :
    (kind : Text) (objects : List ObjectStatus)
    → any (of_kind kind) objects ≡ false
    → filter (of_kind kind) objects ≡ []
filter_none kind [] h = refl
filter_none kind (object ∷ objects) h = ground (arith, h, filter_none kind objects)

-- The group of a kind after one object more.
lookup-file_under :
    (kind : Text) (groups : List (Text × List ObjectStatus)) (object : ObjectStatus)
    → lookup kind (file_under groups object) ≡ (
        if of_kind kind object
        then some (or_else (lookup kind groups) [] ++ object ∷ [])
        else lookup kind groups)
unfolding file_under
lookup-file_under kind groups object =
    lookup-insert object.kind kind (or_else (lookup object.kind groups) [] ++ object ∷ []) groups
    ∙ elim (Bool-cases (of_kind kind object)) [
      | inl own ↦ rw own (
          ap (λ k. some (or_else (lookup k groups) [] ++ object ∷ []))
            ((text_eq_iff object.kind kind).0 own))
      | inr other ↦ rw other refl
    ]

-- What the objects add to a group that is there or not.
abbrev extended : Text → Option (List ObjectStatus) → List ObjectStatus → Option (List ObjectStatus)
extended kind group objects =
    if any (of_kind kind) objects
    then some (or_else group [] ++ filter (of_kind kind) objects)
    else group

extended-cons :
    (kind : Text) (group : Option (List ObjectStatus)) (object : ObjectStatus)
    (objects : List ObjectStatus)
    → extended kind
        (if of_kind kind object then some (or_else group [] ++ object ∷ []) else group)
        objects
      ≡ extended kind group (object ∷ objects)
extended-cons kind group object objects = elim (Bool-cases (of_kind kind object)) [
  | inr other ↦ rw other refl
  | inl own ↦ elim (Bool-cases (any (of_kind kind) objects)) [
    | inl more ↦
        rw (own, more)
          (ap (λ xs. some xs)
            (append_assoc (or_else group []) (object ∷ []) (filter (of_kind kind) objects)))
    | inr last ↦ rw (own, last, filter_none kind objects last) refl
  ]
]

lookup-grouped :
    (kind : Text) (groups : List (Text × List ObjectStatus)) (objects : List ObjectStatus)
    → lookup kind (grouped groups objects) ≡ extended kind (lookup kind groups) objects
unfolding grouped
lookup-grouped kind groups [] = refl
lookup-grouped kind groups (object ∷ objects) =
    lookup-grouped kind (file_under groups object) objects
    ∙ ap (λ group. extended kind group objects) (lookup-file_under kind groups object)
    ∙ extended-cons kind (lookup kind groups) object objects

-- The group of a kind holds exactly the objects of that kind, in their order; a kind that no object has
-- has no group.
pub lookup-by_kind :
    (kind : Text) (objects : List ObjectStatus)
    → lookup kind (by_kind objects)
      ≡ (if any (of_kind kind) objects then some (filter (of_kind kind) objects) else none)
unfolding by_kind lookup
lookup-by_kind kind objects = lookup-grouped kind [] objects
