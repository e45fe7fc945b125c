-- ===== src/Replay/Refs.antt =====
-- eventlog.rs: where HEAD and the branches were at a cursor.
-- A cursor of the log is within it, so no slice of the events is out of range.
pub mod Located
use mathlib.Core.List.{reverse}
use git_branchless.Prelude.{
  ℕ, Option, none, some, Bool, true, false, not, ◌&&◌, ◌||◌, string_eq, ◌==◌, if◌then◌else◌, List,
  [], ◌∷◌, String, take, find_map, is_empty, set_insert, Result, ok, err, ◌>>=◌,
}
use git_branchless.Prelude.Map.{Map, lookup, insert, remove, update_entry}
use git_branchless.Oid.{NonZeroOid, MaybeZeroOid, non_zero, oid_eq}
use git_branchless.EventLog.{
  ReferenceName, Event, rewrite_event, ref_update_event, commit_event, obsolete_event,
  unobsolete_event, working_copy_snapshot,
}
use git_branchless.Reference.{categorize, is_local_branch, render_suffix}
use git_branchless.Glob.{is_branch_ignored}
use git_branchless.Replay.{EventCursor, EventReplayer}

-- What the replayer asks of the repository as it is now: each question may fail.
pub record RepoView (E : Type 0) : Type 0 where
  -- `get_main_branch()?.get_reference_name()`, `get_main_branch_oid()`, `get_ignore_branches()`
  pub main_branch_name : Result E ReferenceName
  pub main_branch_oid : Result E NonZeroOid
  pub ignore_branches : Result E (List String)

pub record RepoReferencesSnapshot : Type 0 where
  pub head_oid : Option NonZeroOid
  pub main_branch_oid : NonZeroOid
  pub branch_oid_to_names : Map NonZeroOid (List ReferenceName)

-- the closure of `get_cursor_head_oid`
unfoldable pub head_of : Event → Option NonZeroOid
head_of (ref_update_event _ _ name _ (non_zero new) _) = if name == "HEAD" then some new else none
head_of (commit_event _ _ oid) = some oid
head_of (working_copy_snapshot _ _ (non_zero head) _ _) = some head
head_of _ = none

-- the closure of `get_cursor_branch_oid`
unfoldable pub branch_of : ReferenceName → Event → Option NonZeroOid
branch_of reference_name (ref_update_event _ _ name _ (non_zero new) _) =
    if name == reference_name then some new else none
branch_of reference_name _ = none

-- the first loop of `get_cursor_branch_oid_to_names`
unfoldable pub track_refs : Map ReferenceName NonZeroOid → List Event → Map ReferenceName NonZeroOid
track_refs m [] = m
track_refs m (ref_update_event _ _ name _ (non_zero new) _ ∷ es) = track_refs (insert name new m) es
track_refs m (ref_update_event _ _ name _ MaybeZeroOid.zero _ ∷ es) = track_refs (remove name m) es
track_refs m (_ ∷ es) = track_refs m es

-- the tests of the second loop: a local branch whose short name no pattern ignores
unfoldable pub is_shown : List String → ReferenceName → Bool
is_shown ignore_patterns name =
    is_local_branch (categorize name)
    && (is_empty ignore_patterns
        || not (is_branch_ignored (render_suffix (categorize name)) ignore_patterns))

-- the second loop, over the entries of the map
unfoldable pub group_by_oid :
    List String → Map ReferenceName NonZeroOid → Map NonZeroOid (List ReferenceName)
group_by_oid ignore_patterns [] = []
group_by_oid ignore_patterns ((name, oid) ∷ m) =
    let rest = group_by_oid ignore_patterns m in
    if is_shown ignore_patterns name then update_entry oid (set_insert name) rest else rest

module _ (r : EventReplayer) (cursor : EventCursor) where
  abbrev pub events_before : List Event
  events_before = take cursor.event_id r.events

  unfoldable pub get_cursor_head_oid : Option NonZeroOid
  get_cursor_head_oid = find_map head_of (reverse events_before)

  unfoldable pub get_cursor_branch_oid : ReferenceName → Option NonZeroOid
  get_cursor_branch_oid reference_name = find_map (branch_of reference_name) (reverse events_before)

module _ {E : Type 0} (r : EventReplayer) (cursor : EventCursor) where
  unfoldable pub get_cursor_main_branch_oid : RepoView E → Result E NonZeroOid
  get_cursor_main_branch_oid repo = do
    name ← repo.main_branch_name
    elim (get_cursor_branch_oid r cursor name) [ some oid ↦ ok oid | none ↦ repo.main_branch_oid ]

  unfoldable pub get_cursor_branch_oid_to_names :
      RepoView E → Result E (Map NonZeroOid (List ReferenceName))
  get_cursor_branch_oid_to_names repo = do
    ignore_patterns ← repo.ignore_branches
    main_branch_oid ← get_cursor_main_branch_oid repo
    ok (
        update_entry main_branch_oid (set_insert r.main_branch_reference_name)
          (group_by_oid ignore_patterns (track_refs [] (events_before r cursor))))

  unfoldable pub get_references_snapshot : RepoView E → Result E RepoReferencesSnapshot
  get_references_snapshot repo = do
    main_branch_oid ← get_cursor_main_branch_oid repo
    branch_oid_to_names ← get_cursor_branch_oid_to_names repo
    ok (record {
      head_oid = get_cursor_head_oid r cursor;
      main_branch_oid = main_branch_oid;
      branch_oid_to_names = branch_oid_to_names;
    })
