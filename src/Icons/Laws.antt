-- ===== src/Icons/Laws.antt =====
-- frontend/src/lib/tree.ts: what the icon buckets promise.
use m6t.Common.{
  ◌≡◌, refl, ◌≢◌, ◌⊎◌, Bool, true, false, ◌&&◌, ◌||◌, List, [], ◌∷◌, arith, any, Text, text, lookup,
}
use m6t.Icons.{
  kubernetes, helm, actions, yaml, yaml_kind, icon_kind, has_key, without_bom, scan_lines,
  looks_like_manifest,
}
use m6t.Paths.{split, base_name}

-- The flags come true over the lines, in any order.
scan_lines_iff :
    (api kind : Bool) (line : Text) (lines : List Text)
    → scan_lines api kind (line ∷ lines) ≡ (
        (api || any (has_key (text "apiVersion:")) (line ∷ lines))
        && (kind || any (has_key (text "kind:")) (line ∷ lines)))
unfolding scan_lines
scan_lines_iff true true line lines = refl
scan_lines_iff api kind line [] = ground arith
scan_lines_iff api kind line (next ∷ lines) = ground (
  arith,
  scan_lines_iff (api || has_key (text "apiVersion:") line) (kind || has_key (text "kind:") line)
      next lines,
)

-- The head of a file looks like a manifest exactly if one of its lines gives an `apiVersion` and one,
-- the same or another, before or after, a `kind`; a byte order mark is skipped.
pub looks_like_manifest-any :
    (head : Text)
    → looks_like_manifest head ≡ (
        any (has_key (text "apiVersion:")) (split b'\n' (without_bom head))
        && any (has_key (text "kind:")) (split b'\n' (without_bom head)))
unfolding looks_like_manifest scan_lines
looks_like_manifest-any head = over_lines (split b'\n' (without_bom head))
  where
    over_lines :
        (lines : List Text)
        → scan_lines false false lines
          ≡ (any (has_key (text "apiVersion:")) lines && any (has_key (text "kind:")) lines)
    over_lines [] = refl
    over_lines (line ∷ lines) = scan_lines_iff false false line lines

yaml_kind-cases :
    (path name : Text)
    → (yaml_kind path name ≡ actions)
      ⊎ ((yaml_kind path name ≡ helm) ⊎ (yaml_kind path name ≡ yaml))
unfolding yaml_kind
yaml_kind-cases path name = ground arith

-- Only content makes a manifest: no path has that bucket by name alone.
pub icon_kind-ne-kubernetes :
    (lower : Text → Text) (path : Text) (is_dir : Bool) → icon_kind lower path is_dir ≢ kubernetes
unfolding icon_kind lookup
icon_kind-ne-kubernetes lower path is_dir =
    ground (arith, yaml_kind-cases path (lower (base_name path)))
