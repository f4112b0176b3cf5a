-- ===== src/Paths/Laws.antt =====
-- frontend/src/lib/tree.ts: joining and taking apart paths.
use m6t.Common.{
  ℕ, suc, ◌≡◌, refl, ap, ◌∙◌, ◌≢◌, ◌⊎◌, inl, inr, Bool, true, false, none, some, List, [], ◌∷◌,
  ◌++◌, arith, ◌==◌, maybe, length, take, drop, last_of, Text, text_eq, text_eq_iff,
}
use m6t.Paths.{
  root, slash, split_next, split, last_index_of, join_path, parent_path, base_name, push_segment,
  ancestry_from, ancestry,
}

-- A name of one segment.
abbrev pub IsName : Text → Type 0
IsName name = (name ≢ []) × (last_index_of slash name ≡ none)

last_index_of-append :
    (dir name : Text)
    → last_index_of slash name ≡ none
    → last_index_of slash (dir ++ slash ∷ name) ≡ some (length dir)
unfolding last_index_of
last_index_of-append [] name e = rw (e, maybe) refl
last_index_of-append (c ∷ dir) name e = rw (last_index_of-append dir name e) refl

take-length {ℓ} : {A : Type ℓ} (xs ys : List A) → take (length xs) (xs ++ ys) ≡ xs
take-length [] ys = refl
take-length (x ∷ xs) ys = ap (λ r. x ∷ r) (take-length xs ys)

drop-length {ℓ} :
    {A : Type ℓ} (xs : List A) (y : A) (ys : List A) → drop (suc (length xs)) (xs ++ y ∷ ys) ≡ ys
drop-length [] y ys = refl
drop-length (x ∷ xs) y ys = drop-length xs y ys

-- The directory of what follows a last separator.
pub parent_path-append :
    (dir name : Text) → last_index_of slash name ≡ none → parent_path (dir ++ slash ∷ name) ≡ dir
unfolding parent_path
parent_path-append dir name flat =
    rw (last_index_of-append dir name flat, maybe) (take-length dir (slash ∷ name))

-- What is joined comes apart again, at any directory and any name of one segment.
pub parent_path-join_path :
    (dir name : Text)
    → IsName name
    → (parent_path (join_path dir name) ≡ dir) × (base_name (join_path dir name) ≡ name)
unfolding parent_path join_path base_name text_eq
parent_path-join_path [] name (_, flat) = rw (flat, maybe) (refl, refl)
parent_path-join_path (c ∷ dir) name (_, flat) =
    rw (last_index_of-append (c ∷ dir) name flat, maybe)
      (take-length (c ∷ dir) (slash ∷ name), drop-length (c ∷ dir) slash name)

-- A root-relative path as the backend spells it: names joined by single slashes.
pub data IsPath : Text → Type 0 where
  at_root : IsPath root
  child :
      {path : Text} (dir name : Text)
      → IsPath dir
      → IsName name
      → path ≡ join_path dir name
      → IsPath path

split_flat : (name : Text) → last_index_of slash name ≡ none → split slash name ≡ name ∷ []
unfolding split last_index_of
split_flat [] e = refl
split_flat (c ∷ name) e = ground (arith, split_flat name)

split-ne-nil : (sep : ℕ) (s : Text) → split sep s ≢ []
unfolding split
split-ne-nil sep [] = cc
split-ne-nil sep (c ∷ s) = ground arith

split_next-append :
    (b : Bool) (c : ℕ) (xs ys : List Text)
    → xs ≢ []
    → split_next b c (xs ++ ys) ≡ split_next b c xs ++ ys
split_next-append true c xs ys n = refl
split_next-append false c [] ys n = absurd (n refl)
split_next-append false c (x ∷ xs) ys n = refl

split-join :
    (dir name : Text)
    → last_index_of slash name ≡ none
    → split slash (dir ++ slash ∷ name) ≡ split slash dir ++ name ∷ []
unfolding split
split-join [] name e = rw (split_flat name e) refl
split-join (c ∷ dir) name e =
    rw (split-join dir name e)
      (split_next-append (c == slash) c (split slash dir) (name ∷ []) (split-ne-nil slash dir))

ancestry_from-append :
    (chain xs ys : List Text)
    → ancestry_from chain (xs ++ ys) ≡ ancestry_from (ancestry_from chain xs) ys
unfolding ancestry_from
ancestry_from-append chain [] ys = refl
ancestry_from-append chain (x ∷ xs) ys = ancestry_from-append (push_segment chain x) xs ys

last_of-append {ℓ} : {A : Type ℓ} (xs : List A) (y : A) → last_of (xs ++ y ∷ []) ≡ some y
last_of-append [] y = refl
last_of-append (x ∷ xs) y = rw (last_of-append xs y) refl

-- The chain of a path ends in the path itself; the root's is empty.
abbrev EndsIn : List Text → Text → Type 0
EndsIn chain path = ((path ≡ []) × (chain ≡ [])) ⊎ ((path ≢ []) × (last_of chain ≡ some path))

pub join_path-ne-root : (dir name : Text) → IsName name → join_path dir name ≢ []
unfolding join_path text_eq
join_path-ne-root [] name n = n.0
join_path-ne-root (c ∷ dir) name n = cc

push-name :
    (chain : List Text) (dir name : Text)
    → IsName name
    → EndsIn chain dir
    → push_segment chain name ≡ chain ++ join_path dir name ∷ []
unfolding push_segment join_path
push-name chain dir name n (inl (at, empty)) =
    rw (at, empty) (ground (arith, text_eq_iff name [], text_eq_iff [] root))
push-name chain dir name n (inr (off, last)) =
    ground (arith, text_eq_iff name [], text_eq_iff dir [])

-- A child's chain is its directory's with the child added.
ancestry_of_join :
    (dir name : Text)
    → IsName name
    → EndsIn (ancestry dir) dir
    → ancestry (join_path dir name) ≡ ancestry dir ++ join_path dir name ∷ []
unfolding ancestry join_path text_eq ancestry_from split push_segment
ancestry_of_join [] name n e =
    rw (split_flat name n.1, ancestry_from) (push-name [] [] name n (inl (refl, refl)))
ancestry_of_join (c ∷ dir) name n e =
    ap (ancestry_from []) (split-join (c ∷ dir) name n.1)
    ∙ ancestry_from-append [] (split slash (c ∷ dir)) (name ∷ [])
    ∙ push-name (ancestry (c ∷ dir)) (c ∷ dir) name n e

ancestry_of_root : ancestry root ≡ []
unfolding ancestry ancestry_from split push_segment text_eq
ancestry_of_root = refl

ancestry-EndsIn : {path : Text} → IsPath path → EndsIn (ancestry path) path
ancestry-EndsIn at_root = inl (refl, ancestry_of_root)
ancestry-EndsIn {path} (child dir name p n e) = rw e (
    inr (
      join_path-ne-root dir name n,
      rw (ancestry_of_join dir name n (ancestry-EndsIn p)) (last_of-append (ancestry dir) _),
    ))

-- The breadcrumb of a path is its directory's breadcrumb with the path itself added, and the root
-- has none.
pub ancestry-child :
    (dir name : Text)
    → IsPath dir
    → IsName name
    → (ancestry root ≡ [])
      × (ancestry (join_path dir name) ≡ ancestry dir ++ join_path dir name ∷ [])
ancestry-child dir name p n = (ancestry_of_root, ancestry_of_join dir name n (ancestry-EndsIn p))
