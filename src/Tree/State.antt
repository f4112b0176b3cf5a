-- ===== src/Tree/State.antt =====
-- frontend/src/lib/tree.ts: the transitions keep the listings well formed, and the sets as the
-- source says.
use m6t.Common.{
  ◌≡◌, refl, ap, ◌∙◌, ◌≢◌, some, List, [], ◌∷◌, map, if◌then◌else◌, maybe, maybe_cases, All, Text,
  text_eq_refl, lookup, insert, lookup-insert,
}
use m6t.Tree.{
  Entry, DirState, TreeState, children_of, with_dir, with_loading, tree_entry, with_listing,
  with_error,
}
use m6t.Tree.Rows.{IsChildOf, IsWellListed, lookup-listing, insert-IsListing}

children_of-IsListing :
    (state : TreeState) (dir : Text)
    → IsWellListed state
    → All (IsChildOf dir) (children_of state dir)
unfolding children_of
children_of-IsListing state dir w =
    maybe_cases (All (IsChildOf dir)) (lookup dir state.dirs) (λ _. tt)
      λ d e. (lookup-listing dir state.dirs w e).0

map-IsChildOf :
    (dir : Text) (entries : List Entry)
    → All (λ e. e.name ≢ []) entries
    → All (IsChildOf dir) (map (tree_entry dir) entries)
map-IsChildOf dir [] h = tt
map-IsChildOf dir (e ∷ entries) h = ((h.0, refl), map-IsChildOf dir entries h.1)

-- Fetching keeps the listings well formed (whether it begins, ends with entries that have names, or
-- fails), a reload in flight or a failed one keeps the children on screen, and a listing replaces
-- them by its entries.
pub fetch-IsWellListed :
    (state : TreeState) (dir message : Text) (entries : List Entry)
    → IsWellListed state
    → All (λ e. e.name ≢ []) entries
    → IsWellListed (with_loading state dir)
      × IsWellListed (with_error state dir message)
      × IsWellListed (with_listing state dir entries)
      × (children_of (with_loading state dir) dir ≡ children_of state dir)
      × (children_of (with_error state dir message) dir ≡ children_of state dir)
      × (children_of (with_listing state dir entries) dir ≡ map (tree_entry dir) entries)
unfolding with_loading with_error with_listing with_dir
fetch-IsWellListed state dir message entries w named = (
  insert-IsListing dir _ state.dirs (children_of-IsListing state dir w) w,
  insert-IsListing dir _ state.dirs (children_of-IsListing state dir w) w,
  insert-IsListing dir _ state.dirs (map-IsChildOf dir entries named) w,
  inserted _,
  inserted _,
  inserted _,
)
  where
    inserted :
        (d : DirState)
        → children_of (record state { dirs = insert dir d state.dirs }) dir ≡ d.children
    inserted d =
        unfold children_of in
        ap (λ o. maybe o [] λ x. x.children)
          (lookup-insert dir dir d state.dirs
            ∙ ap (λ b. if b then some d else lookup dir state.dirs) (text_eq_refl dir))
