-- ===== src/Execute.antt =====
-- git-branchless-lib/src/core/rewrite/execute.rs: the execution of a plan, and what follows it.
pub mod InMemory
pub mod Effects
pub mod Runs
pub mod Labels
pub mod Kept
pub mod Fallback
pub mod Skips
pub mod Branches
pub mod Moves
pub mod Follows
pub mod Head
pub mod Updated
pub mod Forced
pub mod Arrives
