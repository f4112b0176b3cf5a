-- ===== src/Panes.antt =====
-- frontend/src/lib/panes.ts: split geometry. Sizes are whole numbers of pixels, so that `Math.round`
-- leaves them and `Number.isFinite` holds.
pub mod Laws
use m6t.Common.{ℕ, Option, none, some, Bool, if◌then◌else◌, Text, text, text_eq}
use m6t.Common.Int.{ℤ, pos, negsuc, neg, ◌+ℤ◌, ◌-ℤ◌, leb_ℤ, min_ℤ, max_ℤ}

pub data Orientation : Type 0 where
  vertical horizontal : Orientation

-- `1` for the leading pane, `-1` for the trailing one.
pub data Direction : Type 0 where
  leading trailing : Direction

pub record Bounds : Type 0 where
  pub min : ℤ
  pub min_other : ℤ
  pub total : ℤ

-- Holds a requested size inside its bounds.
unfoldable pub clamp_split : ℤ → Bounds → ℤ
clamp_split wanted bounds =
    let max = bounds.total -ℤ bounds.min_other in
    if leb_ℤ bounds.total (pos 0)
    then max_ℤ bounds.min wanted
    else if leb_ℤ max bounds.min
    then bounds.min
    else min_ℤ max (max_ℤ bounds.min wanted)

abbrev pub nudge : ℤ
nudge = pos 8

abbrev pub nudge_coarse : ℤ
nudge_coarse = pos 40

abbrev pub back_key : Orientation → Text
back_key vertical = text "ArrowLeft"
back_key horizontal = text "ArrowUp"

abbrev pub forward_key : Orientation → Text
forward_key vertical = text "ArrowRight"
forward_key horizontal = text "ArrowDown"

-- The movement a key means for a separator.
unfoldable pub nudge_for : Text → Orientation → Bool → Option ℤ
nudge_for key orientation coarse =
    let step = if coarse then nudge_coarse else nudge in
    if text_eq key (back_key orientation)
    then some (neg step)
    else if text_eq key (forward_key orientation)
    then some step
    else none

-- `movement * direction`.
abbrev pub signed : ℤ → Direction → ℤ
signed movement leading = movement
signed movement trailing = neg movement

-- Applies a movement along the axis to the pane a separator sizes.
unfoldable pub resize : ℤ → ℤ → Direction → Bounds → ℤ
resize size movement direction bounds = clamp_split (size +ℤ signed movement direction) bounds

abbrev pub sidebar_default : ℤ
sidebar_default = pos 260

abbrev pub sidebar_min : ℤ
sidebar_min = pos 180

abbrev pub editor_min_width : ℤ
editor_min_width = pos 320

abbrev pub terminal_default : ℤ
terminal_default = pos 260

abbrev pub terminal_min : ℤ
terminal_min = pos 120

abbrev pub editor_min_height : ℤ
editor_min_height = pos 160

abbrev pub cluster_default : ℤ
cluster_default = pos 280

abbrev pub cluster_min : ℤ
cluster_min = pos 220
