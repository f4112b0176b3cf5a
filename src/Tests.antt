-- ===== src/Tests.antt =====
-- The code on concrete inputs, and the theorems at them.
pub mod Terminals
pub mod Trees
pub mod Editing
pub mod Repository
pub mod Saved
pub mod Registry
pub mod Pipelines
pub mod Objects
pub mod Strips
pub mod Hooks
pub mod Blamed
pub mod Sessions
pub mod Panes
pub mod Clusters
