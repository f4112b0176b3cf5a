-- ===== src/Icons.antt =====
-- frontend/src/lib/tree.ts: the icon bucket of a file, from its path and from its content.
-- `lower` stands for `String.prototype.toLowerCase`.
pub mod Laws
use m6t.Common.{
  ℕ, Bool, true, false, not, ◌&&◌, ◌||◌, List, [], ◌∷◌, leb, ◌==◌, if◌then◌else◌, or_else, maybe,
  length, get_elem?, drop, filter, any, Text, text, text_eq, starts_with, lookup, contains,
}
use m6t.Paths.{slash, split, last_index_of, parent_path, base_name}

pub data IconKind : Type 0 where
  dir kubernetes helm kustomize actions yaml md go ts tsx js json shell toml docker make file :
      IconKind

abbrev by_name : List (Text × IconKind)
by_name =
    (text "dockerfile", docker)
    ∷ (text "containerfile", docker)
    ∷ (text "makefile", make)
    ∷ (text "gnumakefile", make)
    ∷ (text "chart.yaml", helm)
    ∷ (text "chart.lock", helm)
    ∷ (text "kustomization.yaml", kustomize)
    ∷ (text "kustomization.yml", kustomize)
    ∷ []

abbrev by_extension : List (Text × IconKind)
by_extension =
    (text ".md", md)
    ∷ (text ".markdown", md)
    ∷ (text ".go", go)
    ∷ (text ".ts", ts)
    ∷ (text ".mts", ts)
    ∷ (text ".cts", ts)
    ∷ (text ".tsx", tsx)
    ∷ (text ".js", js)
    ∷ (text ".mjs", js)
    ∷ (text ".cjs", js)
    ∷ (text ".jsx", js)
    ∷ (text ".json", json)
    ∷ (text ".sh", shell)
    ∷ (text ".bash", shell)
    ∷ (text ".zsh", shell)
    ∷ (text ".toml", toml)
    ∷ (text ".dockerfile", docker)
    ∷ (text ".mk", make)
    ∷ []

-- A suffix with its dot; a leading dot starts none.
unfoldable pub extension_of : Text → Text
extension_of name =
    maybe (last_index_of b'.' name) [] λ dot. if leb dot 0 then [] else drop dot name

-- `dirs[0] === ".github" && dirs[1] === "workflows"`.
abbrev in_workflows : List Text → Bool
in_workflows dirs =
    text_eq (or_else (get_elem? dirs 0) []) (text ".github")
    && text_eq (or_else (get_elem? dirs 1) []) (text "workflows")

unfoldable pub yaml_kind : Text → Text → IconKind
yaml_kind path name =
    let dirs = filter (λ segment. not (text_eq segment [])) (split slash (parent_path path)) in
    if in_workflows dirs
    then actions
    else if starts_with (text "values") name || contains (text "templates") dirs
    then helm
    else yaml

module _ (lower : Text → Text) where
  unfoldable pub icon_kind : Text → Bool → IconKind
  icon_kind path is_dir =
      let name = lower (base_name path) in
      let extension = extension_of name in
      if is_dir
      then dir
      else maybe (lookup name by_name)
          (if text_eq extension (text ".yaml") || text_eq extension (text ".yml")
            then yaml_kind path name
            else or_else (lookup extension by_extension) file)
          (λ kind. kind)

-- `\s` of a regular expression.
unfoldable pub is_space : ℕ → Bool
is_space c =
    c == 32
    || (leb 9 c && leb c 13)
    || c == 160
    || c == 5760
    || (leb 8192 c && leb c 8202)
    || c == 8232
    || c == 8233
    || c == 8239
    || c == 8287
    || c == 12288
    || c == 65279

-- `/^key:\s*\S/.test(line)`, with the colon in `key`.
unfoldable pub has_key : Text → Text → Bool
has_key key line = starts_with key line && any (λ c. not (is_space c)) (drop (length key) line)

-- `head.replace(/^\ufeff/, "")`.
abbrev pub without_bom : Text → Text
without_bom [] = []
without_bom (c ∷ head) = if c == 65279 then head else c ∷ head

-- The loop over the lines, with the two flags.
unfoldable pub scan_lines : Bool → Bool → List Text → Bool
scan_lines api_version kind [] = false
scan_lines api_version kind (line ∷ lines) =
    let api = api_version || has_key (text "apiVersion:") line in
    let knd = kind || has_key (text "kind:") line in
    let rest = scan_lines api knd lines in if api && knd then true else rest

unfoldable pub looks_like_manifest : Text → Bool
looks_like_manifest head = scan_lines false false (split b'\n' (without_bom head))

abbrev pub is_yaml : IconKind → Bool
is_yaml yaml = true
is_yaml _ = false

unfoldable pub resolve_icon_kind : IconKind → Bool → IconKind
resolve_icon_kind kind is_manifest = if is_yaml kind && is_manifest then kubernetes else kind
