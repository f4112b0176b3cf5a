-- ===== src/TreeHook/Batched.antt =====
-- frontend/src/lib/useFileTree.ts: the batches that the backend is asked about.
use m6t.Common.{
  take-drop, ℕ, zero, suc, ◌≤◌, ◌≡◌, refl, ap, ◌∙◌, List, [], ◌∷◌, ◌++◌, arith, All, length, take,
  drop, Text,
}
use m6t.TreeHook.{slices, batched}

unfoldable pub concat : List (List Text) → List Text
concat [] = []
concat (batch ∷ batches) = batch ++ concat batches

length-take : (n : ℕ) (paths : List Text) → length (take n paths) ≤ n
length-take zero paths = omega arith
length-take (suc n) [] = omega arith
length-take (suc n) (path ∷ paths) = omega (arith, length-take n paths)

length-drop : (n : ℕ) (paths : List Text) → length (drop n paths) ≤ length paths
length-drop zero paths = omega arith
length-drop (suc n) [] = omega arith
length-drop (suc n) (path ∷ paths) = omega (arith, length-drop n paths)

concat-slices :
    (fuel size : ℕ) (paths : List Text)
    → length paths ≤ fuel
    → concat (slices fuel (suc size) paths) ≡ paths
unfolding concat slices
concat-slices zero size [] h = refl
concat-slices zero size (path ∷ paths) h = absurd (omega (arith, h))
concat-slices (suc fuel) size [] h = refl
concat-slices (suc fuel) size (path ∷ paths) h =
    ap (λ l. (path ∷ take size paths) ++ l)
      (concat-slices fuel size (drop size paths) (omega (arith, h, length-drop size paths)))
    ∙ ap (λ l. path ∷ l) (take-drop size paths)

-- A batch holds one path at least and no more than the backend serves.
slices-All :
    (fuel size : ℕ) (paths : List Text)
    → All (λ batch. (1 ≤ length batch) × (length batch ≤ suc size)) (slices fuel (suc size) paths)
unfolding slices
slices-All zero size paths = tt
slices-All (suc fuel) size [] = tt
slices-All (suc fuel) size (path ∷ paths) =
    ((omega arith, omega (arith, length-take size paths)), slices-All fuel size (drop size paths))

-- The batches are the paths, each once and in their order, and each batch holds 1 to 256 of them.
pub concat-batched :
    (paths : List Text)
    → (concat (batched paths) ≡ paths)
      × All (λ batch. (1 ≤ length batch) × (length batch ≤ 256)) (batched paths)
unfolding batched
concat-batched paths =
    (concat-slices (length paths) 255 paths (omega arith), slices-All (length paths) 255 paths)
