-- ===== src/Pipeline/Diff.antt =====
-- frontend/src/lib/pipeline.ts: what the diff viewer shows of an output, and what it says it left out.
use m6t.Common.{
  ℕ, zero, suc, ◌+◌, ◌-◌, ◌≤◌, ◌<◌, ◌≡◌, ◌≢◌, refl, ap, ◌∙◌, none, some, List, [], ◌∷◌, ◌++◌, map,
  arith, ◌==◌, maybe, length, length-append, take, last_of, Text, text_eq, text_eq_iff, Bool-cases,
  Option-cases, inl, inr,
}
use m6t.Paths.{split}
use m6t.Pipeline.{DiffLine, diff_line, diff_lines, trimmed, without_last, max_diff_lines, omitted}

split_terminated_at :
    (sep : ℕ) (s : Text)
    → (part : Text) × (parts : List Text) × (split sep s ≡ part ∷ parts)
      × (split sep (s ++ sep ∷ []) ≡ split sep s ++ [] ∷ [])
unfolding split
split_terminated_at sep [] = ([], [], refl, ground arith)
split_terminated_at sep (c ∷ s) =
    let (part, parts, first, rest) = split_terminated_at sep s in
    elim (Bool-cases (c == sep)) [
      | inl at ↦ ([], split sep s, rw at refl, rw (at, rest) refl)
      | inr off ↦ (c ∷ part, parts, rw (off, first) refl, rw (off, rest, first) refl)
    ]

-- A line terminator adds an empty last part.
split_terminated : (sep : ℕ) (s : Text) → split sep (s ++ sep ∷ []) ≡ split sep s ++ [] ∷ []
split_terminated sep s = let (_, _, _, added_part) = split_terminated_at sep s in added_part

take_short : (k : ℕ) (xs : List Text) → length xs ≤ k → take k xs ≡ xs
take_short zero [] h = refl
take_short zero (x ∷ xs) h = absurd (omega arith)
take_short (suc k) [] h = refl
take_short (suc k) (x ∷ xs) h = ap (λ r. x ∷ r) (take_short k xs (omega arith))

take_long : (k : ℕ) (xs ys : List Text) → k ≤ length xs → take k (xs ++ ys) ≡ take k xs
take_long zero xs ys h = refl
take_long (suc k) [] ys h = absurd (omega arith)
take_long (suc k) (x ∷ xs) ys h = ap (λ r. x ∷ r) (take_long k xs ys (omega arith))

abbrev pub texts : List DiffLine → List Text
texts lines = map (λ (line : DiffLine). line.text) lines

texts-map : (xs : List Text) → texts (map diff_line xs) ≡ xs
texts-map [] = refl
texts-map (x ∷ xs) = ap (λ r. x ∷ r) (texts-map xs)

last_of-append : (xs : List Text) → last_of (map diff_line (xs ++ [] ∷ [])) ≡ some (diff_line [])
last_of-append [] = refl
last_of-append (x ∷ xs) = rw (last_of-append xs) refl

without_last-append :
    (xs : List Text) → without_last (map diff_line (xs ++ [] ∷ [])) ≡ map diff_line xs
without_last-append [] = refl
without_last-append (x ∷ []) = refl
without_last-append (x ∷ y ∷ xs) = ap (λ r. diff_line x ∷ r) (without_last-append (y ∷ xs))

trimmed_terminated : (xs : List Text) → trimmed (map diff_line (xs ++ [] ∷ [])) ≡ map diff_line xs
unfolding text_eq
trimmed_terminated xs = rw (last_of-append xs) (without_last-append xs)

last_of-map :
    (xs : List Text) → last_of (map diff_line xs) ≡ maybe (last_of xs) none λ x. some (diff_line x)
last_of-map [] = refl
last_of-map (x ∷ xs) = rw (last_of-map xs) (elim (Option-cases (last_of xs)) [
  | inl nothing ↦ rw nothing refl
  | inr (y, found) ↦ rw found refl
])

trimmed_kept :
    (xs : List Text) → last_of xs ≢ some [] → trimmed (map diff_line xs) ≡ map diff_line xs
trimmed_kept xs h = elim (Option-cases (last_of xs)) [
  | inl nothing ↦ rw (last_of-map xs, nothing) refl
  | inr (y, found) ↦ elim (Bool-cases (text_eq y [])) [
    | inl empty ↦ absurd (h (found ∙ ap (λ z. some z) ((text_eq_iff y []).0 empty)))
    | inr full ↦ rw (last_of-map xs, found, full) refl
  ]
]

-- Of an output whose last line ends, the viewer shows every line and says that none was left out as
-- long as there are fewer lines than the limit. From the limit on it shows the first of them up to the
-- limit, unless the last of those is empty, and says that it left out one more than it did.
pub diff_lines-terminated :
    (s : Text)
    → (length (split b'\n' s) < max_diff_lines
        → (texts (diff_lines (s ++ b'\n' ∷ [])) ≡ split b'\n' s) × (omitted (s ++ b'\n' ∷ []) ≡ 0))
      × (max_diff_lines ≤ length (split b'\n' s)
          → last_of (take max_diff_lines (split b'\n' s)) ≢ some []
          → (texts (diff_lines (s ++ b'\n' ∷ [])) ≡ take max_diff_lines (split b'\n' s))
            × (omitted (s ++ b'\n' ∷ []) ≡ length (split b'\n' s) - max_diff_lines + 1))
unfolding diff_lines omitted
diff_lines-terminated s = within max_diff_lines (split b'\n' s) (split_terminated b'\n' s)
  where
    within :
        (limit : ℕ) (lines : List Text)
        → split b'\n' (s ++ b'\n' ∷ []) ≡ lines ++ [] ∷ []
        → (length lines < limit
            → (texts (trimmed (map diff_line (take limit (split b'\n' (s ++ b'\n' ∷ []))))) ≡ lines)
              × (length (split b'\n' (s ++ b'\n' ∷ [])) - limit ≡ 0))
          × (limit ≤ length lines
              → last_of (take limit lines) ≢ some []
              → (texts (trimmed (map diff_line (take limit (split b'\n' (s ++ b'\n' ∷ [])))))
                  ≡ take limit lines)
                × (length (split b'\n' (s ++ b'\n' ∷ [])) - limit ≡ length lines - limit + 1))
    within limit lines e =
        let count = ap {B = ℕ} length e ∙ length-append {0} lines ([] ∷ []) in
        (
          λ few. (
            ap (λ xs. texts (trimmed (map diff_line (take limit xs)))) e
                ∙ ap (λ xs. texts (trimmed (map diff_line xs)))
                    (take_short limit (lines ++ [] ∷ [])
                      (omega (arith, few, length-append {0} lines ([] ∷ []))))
                ∙ ap texts (trimmed_terminated lines)
                ∙ texts-map lines,
            omega (arith, few, count),
          ),
          λ many full. (
            ap (λ xs. texts (trimmed (map diff_line (take limit xs)))) e
                ∙ ap (λ xs. texts (trimmed (map diff_line xs)))
                    (take_long limit lines ([] ∷ []) many)
                ∙ ap texts (trimmed_kept (take limit lines) full)
                ∙ texts-map (take limit lines),
            omega (arith, many, count),
          ),
        )
