-- ===== src/Hide.antt =====
-- git-branchless/src/commands/hide.rs: the events that `hide` and `unhide` log.
-- The commits are those that the revset resolved to, sorted; branches and messages are outside.
pub mod Status
pub mod Undone
use git_branchless.Prelude.{ℕ, List, map}
use git_branchless.Oid.{NonZeroOid}
use git_branchless.EventLog.{EventTransactionId, Event, obsolete_event, unobsolete_event}

unfoldable pub hide_events : ℕ → EventTransactionId → List NonZeroOid → List Event
hide_events timestamp tx commits = map (λ oid. obsolete_event timestamp tx oid) commits

unfoldable pub unhide_events : ℕ → EventTransactionId → List NonZeroOid → List Event
unhide_events timestamp tx commits = map (λ oid. unobsolete_event timestamp tx oid) commits
