-- ===== src/Common/Assoc.antt =====
-- `Map` and `Record` as association lists in the order of insertion, and `Set` as a list of texts.
use mathlib.Core.Path.{◌≡◌, refl}
use mathlib.Core.Bool.{Bool, false, not, ◌||◌}
use mathlib.Core.List.{List, [], ◌∷◌, ◌++◌}
use mathlib.Core.Option.{Option, none, some}
use native.Mathlib.Omega.{arith}
use m6t.Common.Tests.{if◌then◌else◌}
use m6t.Common.Lists.{filter}
use m6t.Common.Texts.{Text, text_eq, text_eq_iff}

module _ {ℓ} {V : Type ℓ} where
  -- `Map.get`.
  unfoldable pub lookup : Text → List (Text × V) → Option V
  lookup k [] = none
  lookup k ((j, v) ∷ m) = let rest = lookup k m in if text_eq j k then some v else rest

  -- `Map.set`: a key that is there keeps its place.
  unfoldable pub insert : Text → V → List (Text × V) → List (Text × V)
  insert k v [] = (k, v) ∷ []
  insert k v ((j, w) ∷ m) =
      let rest = insert k v m in if text_eq j k then (j, v) ∷ m else (j, w) ∷ rest

  pub lookup-insert :
      (k j : Text) (v : V) (m : List (Text × V))
      → lookup j (insert k v m) ≡ (if text_eq k j then some v else lookup j m)
  unfolding lookup insert
  lookup-insert k j v [] = refl
  lookup-insert k j v ((i, w) ∷ m) =
      ground (arith, text_eq_iff k j, text_eq_iff i k, text_eq_iff i j, lookup-insert k j v m)

  -- A `Map` or `Record` without a key.
  pub lookup-filter :
      (k j : Text) (m : List (Text × V))
      → lookup j (filter (λ entry. not (text_eq entry.0 k)) m)
        ≡ (if text_eq k j then none else lookup j m)
  unfolding lookup
  lookup-filter k j [] = ground arith
  lookup-filter k j ((i, w) ∷ m) =
      ground (arith, text_eq_iff k j, text_eq_iff i k, text_eq_iff i j, lookup-filter k j m)

-- `Set.has`, `Array.includes`.
unfoldable pub contains : Text → List Text → Bool
contains k [] = false
contains k (x ∷ xs) = text_eq x k || contains k xs

-- `Set.add`: a member keeps its place.
unfoldable pub add : Text → List Text → List Text
unfolding contains
add k xs = if contains k xs then xs else xs ++ k ∷ []

-- `Set.delete`; a set holds a member once.
unfoldable pub remove : Text → List Text → List Text
remove k [] = []
remove k (x ∷ xs) = let rest = remove k xs in if text_eq x k then rest else x ∷ rest

pub contains-append :
    (k : Text) (xs ys : List Text) → contains k (xs ++ ys) ≡ (contains k xs || contains k ys)
unfolding contains
contains-append k [] ys = refl
contains-append k (x ∷ xs) ys = ground (arith, contains-append k xs ys)

pub contains-add :
    (k j : Text) (xs : List Text) → contains j (add k xs) ≡ (text_eq k j || contains j xs)
unfolding add
contains-add k j xs = ground (arith, contains-append j xs (k ∷ []), text_eq_iff k j)

pub contains-remove :
    (k j : Text) (xs : List Text)
    → contains j (remove k xs) ≡ (if text_eq k j then false else contains j xs)
unfolding contains remove
contains-remove k j [] = ground arith
contains-remove k j (x ∷ xs) =
    ground (arith, text_eq_iff x k, text_eq_iff k j, text_eq_iff x j, contains-remove k j xs)
