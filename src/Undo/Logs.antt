-- ===== src/Undo/Logs.antt =====
-- git-branchless-undo/src/lib.rs: what an undo adds to the event log.
use git_branchless.Prelude.{Bool, false, List, string_eq}
use git_branchless.EventLog.{
  Event, rewrite_event, ref_update_event, commit_event, obsolete_event, unobsolete_event,
  working_copy_snapshot,
}
use git_branchless.EventLog.Stored.{is_recorded}

-- the events that say something of a commit, outside a suppressed transaction
abbrev pub is_logged : Event → Bool
is_logged (ref_update_event _ _ _ _ _ _) = false
is_logged (working_copy_snapshot _ _ _ _ _) = false
is_logged (commit_event t tx oid) = is_recorded (commit_event t tx oid)
is_logged (obsolete_event t tx oid) = is_recorded (obsolete_event t tx oid)
is_logged (unobsolete_event t tx oid) = is_recorded (unobsolete_event t tx oid)
is_logged (rewrite_event t tx old new) = is_recorded (rewrite_event t tx old new)
