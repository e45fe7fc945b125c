-- ===== src/Replay/Refs/Located.antt =====
-- eventlog.rs: the branches shown at a commit.
use git_branchless.Prelude.{string_eq, option_eq}
use git_branchless.Prelude.Map.{Map}
use git_branchless.Oid.{oid_eq}
