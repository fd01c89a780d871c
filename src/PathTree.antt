-- ===== src/PathTree.antt =====
-- The tree of paths that reports are drawn as: agent_wrap/lib/path_tree.py.
pub mod Build
pub mod Shape
mod Examples
