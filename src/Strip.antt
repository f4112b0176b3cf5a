-- ===== src/Strip.antt =====
-- The rule that frontend/src/lib/tabs.ts, editorTabs.ts and projects.ts each spell out for the entry
-- to select once one is closed.
use m6t.Common.{
  true, some_inj, Memᴰ, find_index_fails, if_cases, filter-Memᴰ, get_elem?-Memᴰ, ℕ, suc, min, ◌≡◌,
  refl, ap, ◌∙◌, ◌≢◌, Bool, false, not, Option, none, some, List, [], ◌∷◌, ◌++◌, append-nil, arith,
  if◌then◌else◌, maybe, All, length, get_elem?, last_of, filter, find_index, length-append, Text,
  text_eq, text_eq_iff,
}

module _ {ℓ} {A : Type ℓ} (key_of : A → Text) where
  abbrev pub has_key : Text → A → Bool
  has_key key t = text_eq (key_of t) key

  abbrev pub without : Text → List A → List A
  without key tabs = filter (λ t. not (has_key key t)) tabs

  -- `remaining[Math.min(index, remaining.length - 1)].key`, or null where nothing remains.
  abbrev pub neighbour : ℕ → List A → Option Text
  neighbour index [] = none
  neighbour index (t ∷ ts) =
      maybe (get_elem? (t ∷ ts) (min index (length ts))) none λ chosen. some (key_of chosen)

  abbrev pub is_active : Option Text → Text → Bool
  is_active none key = false
  is_active (some k) key = text_eq k key

  abbrev pub selection_after : List A → Text → Option Text → Option Text
  selection_after tabs key active =
      if is_active active key
      then maybe (find_index (has_key key) tabs) active
          (λ index. neighbour index (without key tabs))
      else active

  -- The right-hand neighbour, or else the left-hand one.
  abbrev pub beside : List A → List A → Option Text
  beside before [] = maybe (last_of before) none λ t. some (key_of t)
  beside before (t ∷ after) = some (key_of t)

  abbrev pub IsAbsent : Text → List A → Type 0
  IsAbsent key tabs = All (λ t. key_of t ≢ key) tabs

  find_index_at :
      (key : Text) (before after : List A) (t : A)
      → IsAbsent key before
      → key_of t ≡ key
      → find_index (has_key key) (before ++ t ∷ after) ≡ some (length before)
  find_index_at key [] after t h e = ground (arith, text_eq_iff (key_of t) key)
  find_index_at key (x ∷ before) after t h e =
      ground (arith, text_eq_iff (key_of x) key, find_index_at key before after t h.1)

  without_absent : (key : Text) (tabs : List A) → IsAbsent key tabs → without key tabs ≡ tabs
  without_absent key [] h = refl
  without_absent key (x ∷ tabs) h =
      ground (arith, text_eq_iff (key_of x) key, without_absent key tabs h.1)

  without_at :
      (key : Text) (before after : List A) (t : A)
      → IsAbsent key before
      → key_of t ≡ key
      → IsAbsent key after
      → without key (before ++ t ∷ after) ≡ before ++ after
  without_at key [] after t h e g =
      ground (arith, text_eq_iff (key_of t) key, without_absent key after g)
  without_at key (x ∷ before) after t h e g =
      ground (arith, text_eq_iff (key_of x) key, without_at key before after t h.1)

  get_elem?_next :
      (before after : List A) (t : A) → get_elem? (before ++ t ∷ after) (length before) ≡ some t
  get_elem?_next [] after t = refl
  get_elem?_next (x ∷ before) after t = get_elem?_next before after t

  get_elem?_last : (x : A) (xs : List A) → get_elem? (x ∷ xs) (length xs) ≡ last_of (x ∷ xs)
  get_elem?_last x [] = refl
  get_elem?_last x (y ∷ xs) = get_elem?_last y xs

  neighbour-beside :
      (before after : List A) → neighbour (length before) (before ++ after) ≡ beside before after
  neighbour-beside [] [] = refl
  neighbour-beside [] (t ∷ after) =
      let first : min 0 (length after) ≡ 0 = omega arith in rw first refl
  neighbour-beside (x ∷ before) [] =
      let end : min (suc (length before)) (length (before ++ [])) ≡ length before =
        omega (arith, length-append {ℓ} before []) in
      rw (end, append-nil before)
        (ap (λ o. maybe o none λ chosen. some (key_of chosen)) (get_elem?_last x before))
  neighbour-beside (x ∷ before) (t ∷ after) =
      let next : min (suc (length before)) (length (before ++ t ∷ after)) ≡ suc (length before) =
        omega (arith, length-append {ℓ} before (t ∷ after)) in
      rw next
        (ap (λ o. maybe o none λ chosen. some (key_of chosen)) (get_elem?_next before after t))

  -- Closing the active entry selects its right-hand neighbour, else its left-hand one, else nothing;
  -- closing another leaves the selection. The closed entry is the only one of its key.
  pub selection_after_lem :
      (before after : List A) (t : A) (key : Text) (active : Option Text)
      → key_of t ≡ key
      → IsAbsent key before
      → IsAbsent key after
      → selection_after (before ++ t ∷ after) key active
        ≡ (if is_active active key then beside before after else active)
  selection_after_lem before after t key active e h g =
      ap (λ next. if is_active active key then next else active)
        (ap (λ o. maybe o active λ index. neighbour index (without key (before ++ t ∷ after)))
            (find_index_at key before after t h e)
          ∙ ap (neighbour (length before)) (without_at key before after t h e g)
          ∙ neighbour-beside before after)

  neighbour-Memᴰ :
      (index : ℕ) (tabs : List A) (chosen : Text)
      → neighbour index tabs ≡ some chosen
      → (t : A) × Memᴰ t tabs × (key_of t ≡ chosen)
  neighbour-Memᴰ index [] chosen e = cc
  neighbour-Memᴰ index (t ∷ ts) chosen e = from _ refl e
    where
      from :
          (o : Option A)
          → get_elem? (t ∷ ts) (min index (length ts)) ≡ o
          → maybe o none (λ found. some (key_of found)) ≡ some chosen
          → (u : A) × Memᴰ u (t ∷ ts) × (key_of u ≡ chosen)
      from none at found = cc
      from (some u) at found =
          (u, get_elem?-Memᴰ (t ∷ ts) (min index (length ts)) at, some_inj found)

  -- A selection that is an entry moves to an entry that remains.
  pub selection_after-Memᴰ :
      (tabs : List A) (key : Text) (active : Option Text) (chosen : Text)
      → ((k : Text) → active ≡ some k → (t : A) × Memᴰ t tabs × (key_of t ≡ k))
      → selection_after tabs key active ≡ some chosen
      → (t : A) × Memᴰ t (without key tabs) × (key_of t ≡ chosen)
  selection_after-Memᴰ tabs key none chosen held e = cc
  selection_after-Memᴰ tabs key (some k) chosen held e =
      if_cases (λ o. o ≡ some chosen → (t : A) × Memᴰ t (without key tabs) × (key_of t ≡ chosen))
        (text_eq k key) (λ own. moved own (find_index (has_key key) tabs) refl)
        (λ other same.
          let (t, listed, named) = held k refl in
          let left : not (has_key key t) ≡ true =
            ap (λ z. not (text_eq z key)) named ∙ ap not other in
          (t, filter-Memᴰ (λ u. not (has_key key u)) tabs left listed, named ∙ some_inj same))
        e
    where
      moved :
          text_eq k key ≡ true
          → (o : Option ℕ) → find_index (has_key key) tabs ≡ o
          → maybe o (some k) (λ index. neighbour index (without key tabs)) ≡ some chosen
          → (t : A) × Memᴰ t (without key tabs) × (key_of t ≡ chosen)
      moved own none nowhere same =
          let (t, listed, named) = held k refl in
          cc
            (own, ap (λ z. text_eq z key) named, find_index_fails (has_key key) tabs nowhere listed)
      moved own (some index) at same = neighbour-Memᴰ index (without key tabs) chosen same
