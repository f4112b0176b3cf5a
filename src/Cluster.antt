-- ===== src/Cluster.antt =====
-- frontend/src/lib/useKube.ts, with the paths and the tools of kube.ts: the cluster binding of whatever
-- is selected, read from a backend that answers later.
pub mod Bound
use m6t.Common.{
  ℕ, suc, ◌+◌, ◌==◌, ◌&&◌, Bool, true, false, not, Option, none, some, List, [], ◌∷◌, ◌++◌, map,
  reverse, if◌then◌else◌, or_else, maybe, length, take, lookup, contains, Text, text, text_eq,
}
use m6t.Paths.{last_index_of}
use m6t.Projects.{Scope, Project}
use m6t.Pipeline.{Binding, unbound, CheckResult}

-- `replace(/\\/g, "/")`.
abbrev pub forward : Text → Text
forward path = map (λ c. if c == b'\\' then b'/' else c) path

abbrev pub drop_slashes : Text → Text
drop_slashes [] = []
drop_slashes (c ∷ s) = let rest = drop_slashes s in if c == b'/' then rest else c ∷ s

-- The directory that a selected path belongs to.
unfoldable pub scope_of : Text → Text
scope_of rel =
    let normalized = reverse (drop_slashes (reverse (forward rel))) in
    maybe (last_index_of b'/' normalized) [] λ cut. take cut normalized

-- The members, in order; the set holds each once.
unfoldable pub overridden_paths : Option Project → List Text
overridden_paths none = []
overridden_paths (some project) =
    map (λ (scope : Scope). scope.path) (or_else project.kube.scopes [])

pub record Tool : Type 0 where
  pub name : Text
  pub path : Text
  pub version : Text
  pub found : Bool
  pub problem : Text

unfoldable pub is_usable : Tool → Bool
is_usable tool = tool.found && text_eq tool.problem []

unfoldable pub degraded : List (Text × Text)
degraded =
    (text "git", text "Branch, diff and history are unavailable")
    ∷ (text "kubectl", text "Every cluster action is disabled")
    ∷ (text "helm", text "Helm features are disabled")
    ∷ []

-- The names of tools are the backend's, none of which an object inherits.
unfoldable pub tool_problem : Tool → Text
tool_problem tool =
    let consequence = or_else (lookup tool.name degraded) [] in
    if is_usable tool
    then []
    else if text_eq consequence []
    then tool.problem
    else tool.problem ++ text ". " ++ consequence ++ text "."

pub record KubeContext : Type 0 where
  pub name : Text
  pub cluster : Text
  pub user : Text
  pub namespace : Text
  pub current : Bool

pub record KubeSelection : Type 0 where
  pub project : Option Text
  pub rel : Text

-- What the binding of the selection is read for, again on each `refresh`.
pub record Wanted : Type 0 where
  pub selection : KubeSelection
  pub generation : ℕ

-- `live` numbers the read whose `current` flag is set; `asked` holds every read of a binding and
-- `checks` every check, latest first.
pub record KubeHook : Type 0 where
  pub selection : KubeSelection
  pub generation : ℕ
  pub seen : Option Wanted
  pub binding : Binding
  pub live : Option ℕ
  pub asked : List (Text × Text)
  pub contexts : List KubeContext
  pub sources : List Text
  pub tools : List Tool
  pub result : Option CheckResult
  pub error : Option Text
  pub checking : Bool
  pub checks : List (Text × Text)

abbrev pub same_text : Option Text → Option Text → Bool
same_text none none = true
same_text (some a) (some b) = text_eq a b
same_text _ _ = false

abbrev pub same_selection : KubeSelection → KubeSelection → Bool
same_selection a b = same_text a.project b.project && text_eq a.rel b.rel

abbrev pub same_wanted : Wanted → Wanted → Bool
same_wanted a b = same_selection a.selection b.selection && a.generation == b.generation

-- The effect that reads the binding, with the clean-up of the last one.
abbrev pub read_for : Wanted → Option Text → KubeHook → KubeHook
read_for wanted none h = record h { seen = some wanted; live = none; binding = unbound }
read_for wanted (some project) h = record h {
  seen = some wanted;
  live = some (suc (length h.asked));
  asked = (project, wanted.selection.rel) ∷ h.asked;
}

unfoldable pub read_binding : Wanted → KubeHook → KubeHook
read_binding wanted h =
    if maybe h.seen false (same_wanted wanted)
    then h
    else read_for wanted wanted.selection.project h

-- A render with a selection: where it moved, the last check's verdict goes.
unfoldable pub render : KubeSelection → KubeHook → KubeHook
render selection h =
    let read =
      read_binding (record { selection = selection; generation = h.generation })
        (record h { selection = selection }) in
    if same_selection h.selection selection
    then read
    else record read { result = none; error = none }

-- The answer to a read of a binding; `none` is a failed one.
unfoldable pub bound : ℕ → Option Binding → KubeHook → KubeHook
bound read answer h =
    if maybe h.live false (λ live. live == read)
    then record h { binding = or_else answer unbound }
    else h

pub record KubeConfig : Type 0 where
  pub contexts : Option (List KubeContext)
  pub sources : Option (List Text)

pub data Outcome (A : Type 0) : Type 0 where
  fulfilled : A → Outcome A
  rejected : Text → Outcome A

abbrev pub with_config : Outcome KubeConfig → KubeHook → KubeHook
with_config (fulfilled config) h = record h {
  contexts = or_else config.contexts [];
  sources = or_else config.sources [];
}
with_config (rejected reason) h = record h { contexts = []; error = some reason }

abbrev pub tools_of : Outcome (List Tool) → List Tool
tools_of (fulfilled tools) = tools
tools_of (rejected reason) = []

-- Both answers of the read that a generation began.
unfoldable pub configured : ℕ → Outcome KubeConfig → Outcome (List Tool) → KubeHook → KubeHook
configured generation config detected h =
    if generation == h.generation
    then record (with_config config h) { tools = tools_of detected }
    else h

unfoldable pub check : KubeHook → KubeHook
check h = maybe h.selection.project h λ project. record h {
  checking = true;
  error = none;
  checks = (project, h.selection.rel) ∷ h.checks;
}

unfoldable pub checked : Outcome CheckResult → KubeHook → KubeHook
checked (fulfilled result) h = record h { result = some result; checking = false }
checked (rejected message) h = record h { result = none; error = some message; checking = false }

-- With the render that follows.
unfoldable pub refresh : KubeHook → KubeHook
refresh h = render h.selection (record h { generation = h.generation + 1 })

unfoldable pub new_hook : KubeHook
new_hook = record {
  selection = record { project = none; rel = [] };
  generation = 0;
  seen = none;
  binding = unbound;
  live = none;
  asked = [];
  contexts = [];
  sources = [];
  tools = [];
  result = none;
  error = none;
  checking = false;
  checks = [];
}
