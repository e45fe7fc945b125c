-- ===== src/Replay.antt =====
-- eventlog.rs: `EventReplayer`, its state, and how an event is processed.
pub mod History
pub mod Status
pub mod Cursor
pub mod Refs
use git_branchless.Prelude.{
  ℕ, ◌+◌, ◌<◌, Option, none, some, Bool, true, false, ◌&&◌, string_eq, option_eq, ◌==◌,
  if◌then◌else◌, List, [], ◌∷◌, ◌++◌, last?, keep, any_of, ltb, EqTest,
}
use git_branchless.Prelude.Map.{Map, lookup, insert, remove, update_entry}
use git_branchless.Oid.{NonZeroOid, MaybeZeroOid, zero, non_zero, from_option, oid_eq}
use git_branchless.EventLog.{
  ReferenceName, Event, rewrite_event, ref_update_event, commit_event, obsolete_event,
  unobsolete_event, working_copy_snapshot, should_ignore_ref_updates,
}

pub data EventClassification : Type 0 where
  show hide : EventClassification

pub data CommitActivityStatus : Type 0 where
  active inactive obsolete : CommitActivityStatus

pub record EventInfo : Type 0 where
  pub id : ℕ
  pub event : Event
  pub event_classification : EventClassification

-- A cursor lies before the event with its number: those with a smaller number are in effect.
pub record EventCursor : Type 0 where
  pub event_id : ℕ

pub record EventReplayer : Type 0 where
  pub id_counter : ℕ
  pub events : List Event
  pub main_branch_reference_name : ReferenceName
  pub commit_history : Map NonZeroOid (List EventInfo)
  pub ref_locations : Map ReferenceName NonZeroOid

-- `EventReplayer::new`
unfoldable pub new : ReferenceName → EventReplayer
new main = record {
  id_counter = 0;
  events = [];
  main_branch_reference_name = main;
  commit_history = [];
  ref_locations = [];
}

-- the first match of `fix_event_git_v2_31`: a deletion that does not say what it deleted
unfoldable pub fill_old_oid : EventReplayer → Event → Event
fill_old_oid r (ref_update_event t tx name MaybeZeroOid.zero MaybeZeroOid.zero msg) =
    ref_update_event t tx name (from_option (lookup name r.ref_locations)) MaybeZeroOid.zero msg
fill_old_oid r e = e

-- the second match: both events delete one reference, with one message
unfoldable pub is_repeated_delete : Event → Option Event → Bool
is_repeated_delete (ref_update_event _ _ name _ MaybeZeroOid.zero msg)
      (some (ref_update_event _ _ last_name _ MaybeZeroOid.zero last_msg)) =
    name == last_name && msg == last_msg
is_repeated_delete _ _ = false

unfoldable pub fix_event_git_v2_31 : EventReplayer → Event → Option Event
fix_event_git_v2_31 r e =
    let e' = fill_old_oid r e in if is_repeated_delete e' (last? r.events) then none else some e'

-- `entry(oid).or_default().push(info)`
unfoldable pub push_info :
    NonZeroOid
    → ℕ
    → Event
    → EventClassification
    → Map NonZeroOid (List EventInfo)
    → Map NonZeroOid (List EventInfo)
push_info oid id e c =
    update_entry oid
      (λ infos. infos ++ record { id = id; event = e; event_classification = c } ∷ [])

abbrev pub push_maybe :
    MaybeZeroOid
    → ℕ
    → Event
    → EventClassification
    → Map NonZeroOid (List EventInfo)
    → Map NonZeroOid (List EventInfo)
push_maybe MaybeZeroOid.zero id e c m = m
push_maybe (non_zero oid) id e c m = push_info oid id e c m

-- what the last match of `process_event` does to `commit_history`
unfoldable pub record_commits :
    ℕ → Event → Map NonZeroOid (List EventInfo) → Map NonZeroOid (List EventInfo)
record_commits id (rewrite_event t tx old new) m =
    let e = rewrite_event t tx old new in push_maybe new id e show (push_maybe old id e hide m)
record_commits id (ref_update_event _ _ _ _ _ _) m = m
record_commits id (commit_event t tx oid) m = push_info oid id (commit_event t tx oid) show m
record_commits id (obsolete_event t tx oid) m = push_info oid id (obsolete_event t tx oid) hide m
record_commits id (unobsolete_event t tx oid) m =
    push_info oid id (unobsolete_event t tx oid) show m
record_commits id (working_copy_snapshot _ _ _ _ _) m = m

-- and to `ref_locations`
unfoldable pub record_refs : Event → Map ReferenceName NonZeroOid → Map ReferenceName NonZeroOid
record_refs (ref_update_event _ _ name _ (non_zero oid) _) m = insert name oid m
record_refs (ref_update_event _ _ name _ MaybeZeroOid.zero _) m = remove name m
record_refs _ m = m

-- the guard at the head of `process_event`
unfoldable pub is_ignored : Event → Bool
is_ignored (ref_update_event _ _ name _ _ _) = should_ignore_ref_updates name
is_ignored _ = false

-- an event that was not dropped
unfoldable pub push_event : EventReplayer → Event → EventReplayer
push_event r e = record r {
  id_counter = r.id_counter + 1;
  events = r.events ++ e ∷ [];
  commit_history = record_commits r.id_counter e r.commit_history;
  ref_locations = record_refs e r.ref_locations;
}

unfoldable pub process_event : EventReplayer → Event → EventReplayer
process_event r e =
    if is_ignored e
    then r
    else elim (fix_event_git_v2_31 r e) [ none ↦ r | some e' ↦ push_event r e' ]

-- the loop of `from_event_log_db`
unfoldable pub process_events : EventReplayer → List Event → EventReplayer
process_events r [] = r
process_events r (e ∷ es) = process_events (process_event r e) es

-- `from_event_log_db`, from the events that the database holds
unfoldable pub from_events : ReferenceName → List Event → EventReplayer
from_events main es = process_events (new main) es
