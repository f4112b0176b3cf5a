-- ===== src/Panes/Laws.antt =====
-- frontend/src/lib/panes.ts: what holding a size inside its bounds promises.
use m6t.Common.{◌≡◌, ◌⊎◌, arith}
use m6t.Common.Int.{ℤ, pos, ◌+ℤ◌, ◌-ℤ◌, ◌≤ℤ◌, eq_of_parts, +ℤ_parts, -ℤ_parts}
use m6t.Panes.{Bounds, clamp_split}

-- Both panes have room, or the axis is not measured.

abbrev pub Fits : ℤ → Bounds → Type 0
Fits size b = (b.min ≤ℤ size) × ((b.total ≤ℤ pos 0) ⊎ (size +ℤ b.min_other ≤ℤ b.total))

-- The window has room for both panes, or is not measured.
abbrev pub HasRoom : Bounds → Type 0
HasRoom b = (b.total ≤ℤ pos 0) ⊎ (b.min +ℤ b.min_other ≤ℤ b.total)

clamp_split-Fits : (size : ℤ) (b : Bounds) → HasRoom b → Fits (clamp_split size b) b
unfolding clamp_split
clamp_split-Fits size b room = ground (
  arith,
  -ℤ_parts b.total b.min_other,
  +ℤ_parts b.min b.min_other,
  +ℤ_parts size b.min_other,
  +ℤ_parts (b.total -ℤ b.min_other) b.min_other,
)

clamp_split_up : (size x : ℤ) (b : Bounds) → Fits x b → size ≤ℤ x → clamp_split size b ≤ℤ x
unfolding clamp_split
clamp_split_up size x b fits h =
    ground (arith, -ℤ_parts b.total b.min_other, +ℤ_parts x b.min_other)

clamp_split_down : (size x : ℤ) (b : Bounds) → Fits x b → x ≤ℤ size → x ≤ℤ clamp_split size b
unfolding clamp_split
clamp_split_down size x b fits h =
    ground (arith, -ℤ_parts b.total b.min_other, +ℤ_parts x b.min_other)

-- In a window with room for both panes, or one not measured yet, the size that is held leaves both
-- panes their minimum, and is the nearest that does: no size that fits lies between it and the size
-- asked for.
pub clamp_split-nearest :
    (size : ℤ) (b : Bounds)
    → HasRoom b
    → Fits (clamp_split size b) b
      × ((x : ℤ)
          → Fits x b
          → (size ≤ℤ x → clamp_split size b ≤ℤ x) × (x ≤ℤ size → x ≤ℤ clamp_split size b))
clamp_split-nearest size b room = (
  clamp_split-Fits size b room,
  λ x fits. (clamp_split_up size x b fits, clamp_split_down size x b fits),
)

-- A size that fits is kept.
pub clamp_split_fixed : (size : ℤ) (b : Bounds) → Fits size b → clamp_split size b ≡ size
clamp_split_fixed size b fits = eq_of_parts (clamp_split size b) size (
    omega (
      arith,
      clamp_split_up size size b fits (omega arith),
      clamp_split_down size size b fits (omega arith),
    ))
