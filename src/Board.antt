-- ===== src/Board.antt =====
-- The board: projects, epics, features, tasks, their dependencies and their status roll-up
-- (src/board/).
pub mod RepoUrl
pub mod Repository
pub mod Templates
pub mod Service
pub mod Acyclic
pub mod Rollup
pub mod Blockers
pub mod Import
pub mod Attached
pub mod Reorder
