-- ===== src/Lib.antt =====
-- m6t is a desktop workbench: a Go backend behind a TypeScript user interface. This library
-- models the interface's own logic, the modules of frontend/src/lib that decide what a tab, a
-- tree row, a socket or a saved workspace does.
--
-- Files, by the code that they model:
--   Common: texts as UTF-16 code units, arrays and maps as lists, integers, Boolean tests.
--   Paths: the root-relative paths of frontend/src/lib/tree.ts (joinPath, parentPath, baseName,
--     ancestry, isHidden).
--   Icons: iconKind and looksLikeManifest of frontend/src/lib/tree.ts; `toLowerCase` is a
--     parameter.
--   Tree: the file tree's state and transitions in frontend/src/lib/tree.ts (TreeState,
--     withListing, reveal, locate, visibleRows, affectedTrackedDirs).
--   Terminal: the wire protocol of frontend/src/lib/protocol.ts (Protocol) and the class
--     TerminalSession of frontend/src/lib/terminalSession.ts (Session). What the session does
--     to its renderer, sockets and tab strip is a log of effects; what they do to it is an
--     event of `step`.
--   Strip, Tabs: the terminal tab strip of frontend/src/lib/tabs.ts; Strip holds the selection
--     rule that tabs.ts, editorTabs.ts and projects.ts each spell out.
--   EditorTabs: one editor tab and the list of them, frontend/src/lib/editorTabs.ts.
--   Editors: the hook of frontend/src/lib/useEditorTabs.ts, its handlers cut where they wait
--     for the backend; the backend's answers are arguments of the parts after the cut.
--   Git: frontend/src/lib/git.ts, gitOps.ts and gitStatus.ts: which operations a status allows
--     (Git), badges and their rollup to directories (Badges), the changed-only rows (Changed).
--     `lower` stands for `toLowerCase`, and a stable insertion for `Array.sort`.
--   Git.Watch: the hook of frontend/src/lib/useGitStatus.ts, whose runs are the steps of
--     Git.Fresh, from which Git.Open reads what happened to a project; the marks are what it
--     was asked for and what it called.
--   Health: frontend/src/lib/health.ts and the hook of useHealth.ts, whose runs are the steps
--     of Health.Shown.
--   Panes: the split geometry of frontend/src/lib/panes.ts, on whole pixels.
--   Workspace: the saved session of frontend/src/lib/session.ts, what it records and what it
--     restores, and clampFontSize of frontend/src/lib/theme.ts.
--   Projects: the project strip's list, order and selection of frontend/src/lib/projects.ts,
--     and the tree per project of projectTrees.ts. `arrayMove` of the drag library is a
--     parameter, and an object's identity is a field of it.
--   Pipeline: frontend/src/lib/pipeline.ts with the bindings of kube.ts, and the hook of
--     usePipeline.ts (Run), whose runs are the steps of Checked: the user's acts and the
--     backend's answers, in any order. React is taken to render between two of them, so that a
--     handler sees the state as it is; what a call gives is an argument of the event that
--     brings it.
--   Terminals: the hook of frontend/src/lib/useTerminals.ts, whose runs are the steps of
--     Terminals.Events; `commit` is the effect that follows a render.
--   Blame: the labels of frontend/src/lib/blame.ts (Blame), the editor field of blameMarks.ts
--     (Marks), whose runs are the transactions of Blame.Reached, and the hook of useBlame.ts
--     (Hook). A document is its lines with what `lineAt` gives, and a transaction what `mapPos`
--     gives.
--   TreeHook: the hook of frontend/src/lib/useFileTree.ts; a handler that waits is cut there,
--     and its second part is a handler of its own that takes the project of the call (listed,
--     classified, created, renamed, deleted). Its runs are the steps of TreeHook.Events, or
--     lists of its events (TreeHook.Open).
--   SessionHook: the hook of frontend/src/lib/useSession.ts. What the other hooks hold in a
--     render is an argument of it, what is asked of them and of the store is a list, and its
--     runs are the steps of SessionHook.Reached.
--   Cluster: the hook of frontend/src/lib/useKube.ts, whose runs are the steps of
--     Cluster.Bound, and the paths and tools of kube.ts.
--   TreePane: the rows and the keys of frontend/src/components/FileTree.tsx.
--   Tests: the code at concrete inputs, and the theorems at them.
--
-- How the parts meet: Editors applies EditorTabs to the tab of a key, EditorTabs takes its kind
-- from Icons and its title from Paths, Tabs takes the status of Terminal.Session, and
-- Terminal.Session decodes its text frames by Terminal.Protocol. Git takes paths and rows from
-- Paths and Tree. Workspace reads the tabs of EditorTabs and Tabs and the state of Tree, and
-- holds its sizes by Panes. Terminals works on the strip of Tabs, TreeHook on the states of
-- Tree in the map of Projects, and SessionHook records by Workspace what the hooks hold.
--
-- Bounds and fuel: visible_rows walks on fuel, the length of the longest path that has a
-- listing and two more, which is enough because a child's path is longer than its directory's;
-- next_title tries as many numbers as there are titles and one more; the ancestors of a path
-- are collected with as much fuel as the path has units, each being shorter than the last;
-- changed_rows has the longest path's length and two more; the decimal digits of n take n + 1
-- rounds; the batches of n paths take n rounds at most, since each takes one path at least.
-- JavaScript's numbers are whole here: no modelled code divides but format_size, which is
-- written out in whole numbers.
--
-- Not modelled: the Go backend under internal (the interface sees it through bindings, whose
-- answers are arguments here), the React components, which draw what the modelled state says
-- and of which only the rows and keys of FileTree.tsx are here, the hooks useProjects.ts and
-- useGitOps.ts of frontend/src/lib, and the modules that only drive CodeMirror, xterm.js, the
-- DOM or the Wails bindings.
pub mod Common
pub mod Paths
pub mod Icons
pub mod Tree
pub mod Terminal
pub mod Strip
pub mod Tabs
pub mod EditorTabs
pub mod Editors
pub mod Git
pub mod Panes
pub mod Workspace
pub mod Projects
pub mod Pipeline
pub mod Health
pub mod Terminals
pub mod Blame
pub mod TreeHook
pub mod SessionHook
pub mod TreePane
pub mod Cluster
pub mod Tests
