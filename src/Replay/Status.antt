-- ===== src/Replay/Status.antt =====
-- eventlog.rs: what is known of a commit at a cursor.
pub mod Spec
pub mod Latest
pub mod Observed
use git_branchless.Prelude.{
  ℕ, suc, ◌+◌, Option, none, some, Bool, true, false, if◌then◌else◌, List, [], ◌∷◌, keep, any_of,
  last?, ltb,
}
use git_branchless.Prelude.Map.{Map, lookup}
use git_branchless.Oid.{NonZeroOid, oid_eq}
use git_branchless.EventLog.{Event}
use git_branchless.Replay.{
  EventClassification, show, hide, CommitActivityStatus, active, inactive, obsolete, EventInfo,
  EventCursor, EventReplayer,
}

module _ (r : EventReplayer) (cursor : EventCursor) where
  unfoldable pub get_cursor_commit_history : NonZeroOid → List EventInfo
  get_cursor_commit_history oid = elim (lookup oid r.commit_history) [
    | none ↦ []
    | some history ↦ keep (λ info. ltb info.id cursor.event_id) history
  ]

  unfoldable pub get_cursor_commit_activity_status : NonZeroOid → CommitActivityStatus
  get_cursor_commit_activity_status oid = elim (last? (get_cursor_commit_history oid)) [
    | none ↦ inactive
    | some info ↦ elim info.event_classification [ show ↦ active | hide ↦ obsolete ]
  ]

  unfoldable pub get_cursor_commit_latest_event : NonZeroOid → Option Event
  get_cursor_commit_latest_event oid = elim (last? (get_cursor_commit_history oid)) [
    | none ↦ none
    | some info ↦ some info.event
  ]

  -- the walk of `get_cursor_oids` over the entries of `commit_history`
  unfoldable pub observed_oids : Map NonZeroOid (List EventInfo) → List NonZeroOid
  observed_oids [] = []
  observed_oids ((oid, history) ∷ m) =
      if any_of (λ info. ltb info.id cursor.event_id) history
      then oid ∷ observed_oids m
      else observed_oids m

  unfoldable pub get_cursor_oids : List NonZeroOid
  get_cursor_oids = observed_oids r.commit_history
