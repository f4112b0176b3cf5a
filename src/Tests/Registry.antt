-- ===== src/Tests/Registry.antt =====
-- frontend/src/lib/projects.ts and projectTrees.ts at concrete inputs.
use m6t.Common.{
  ℕ, ◌≡◌, refl, All, List, ◌==◌, true, false, none, some, [], ◌∷◌, Memᴰ, arith, if◌then◌else◌, Text,
  text, text_eq, text_eq_iff, ◌≢◌,
}
use m6t.Tree.{initial_tree}
use m6t.Projects.{
  Project, named_in, order_projects, directory_name, split_separators, tree_for, with_tree,
  changed_only_of,
}
use m6t.Projects.Order.{AreDistinct, times, mentions, order_projects-times}
use m6t.Projects.Trees.{IsUniform, with_filter, tree_for-with_tree}

abbrev project_called : ℕ → Text → Project
project_called object name = record {
  object = object;
  name = name;
  path = name;
  short_path = name;
  display_name = none;
  color = [];
  kube = record { context = []; namespace = []; protected = false; scopes = none };
  helm = record { default_values = [] };
}

abbrev first_project : Project
first_project = project_called 0 (text "m6t")

abbrev second_project : Project
second_project = project_called 1 (text "k8s")

m6t-ne-k8s : text "m6t" ≢ text "k8s"
unfolding text_eq
m6t-ne-k8s e = ground (arith, e, text_eq_iff (text "m6t") (text "k8s"))

abbrev strip : List Project
strip = first_project ∷ second_project ∷ []

strip-AreDistinct : AreDistinct strip
unfolding text_eq
strip-AreDistinct = (((refl, refl), tt), (tt, tt))

-- A drag that names one project twice, and a removed one.
abbrev dragged : List Text
dragged = text "k8s" ∷ text "old" ∷ text "k8s" ∷ []

order_projects-times_example :
    All
      (λ x.
        times x.object (order_projects strip dragged)
        ≡ (if mentions x.name dragged == 0 then 1 else mentions x.name dragged))
      strip
    × All (λ x. Memᴰ x strip) (order_projects strip dragged)
order_projects-times_example = order_projects-times strip dragged strip-AreDistinct

strip-dragged : order_projects strip dragged ≡ second_project ∷ second_project ∷ first_project ∷ []
unfolding order_projects named_in text_eq
strip-dragged = refl

-- A drag that knew one project and a removed one.
strip-reordered :
    order_projects (first_project ∷ second_project ∷ []) (text "k8s" ∷ text "old" ∷ [])
    ≡ second_project ∷ first_project ∷ []
unfolding order_projects named_in text_eq
strip-reordered = refl

directory_name-windows : directory_name (text "C:\\src\\m6t\\") ≡ text "m6t"
unfolding directory_name split_separators text_eq
directory_name-windows = refl

-- The filter goes on in one of two projects.
tree_for-with_tree_example :
    IsUniform (
      with_tree
        ((text "/a", initial_tree) ∷ (text "/b", initial_tree) ∷ [])
        (text "/a")
        (with_filter true initial_tree))
    × ((r : Text)
        → tree_for
            (with_tree
              ((text "/a", initial_tree) ∷ (text "/b", initial_tree) ∷ [])
              (text "/a")
              (with_filter true initial_tree))
            (some r)
          ≡ (if text_eq (text "/a") r
              then with_filter true initial_tree
              else with_filter true
                  (tree_for ((text "/a", initial_tree) ∷ (text "/b", initial_tree) ∷ []) (some r))))
unfolding changed_only_of
tree_for-with_tree_example =
    tree_for-with_tree ((text "/a", initial_tree) ∷ (text "/b", initial_tree) ∷ []) (text "/a")
      (with_filter true initial_tree) (refl, (refl, tt))
