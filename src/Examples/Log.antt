-- ===== src/Examples/Log.antt =====
-- The theorems on the event log, at a log of three transactions.
use git_branchless.Prelude.{
  ℕ, ◌+◌, ◌≤◌, ◌≡◌, ◌≢◌, refl, pos, negsuc, Option, none, some, true, ◌↔◌, string_eq, option_eq, [],
  ◌∷◌, ◌++◌, length, take, keep, contains, String, arith, ok, err,
}
use git_branchless.Prelude.Map.{Map, lookup, insert, remove, update_entry}
use git_branchless.Glob.{text_of, glob_match}
use git_branchless.Glob.Matches.{Matches}
use git_branchless.Glob.Exact.{glob_match_iff}
use git_branchless.Oid.{
  MaybeZeroOid, non_zero, oid_eq, maybe_oid_to_string, parse_maybe_oid, oid_to_string, parse_oid,
  parse_maybe_oid-to_string, parse_oid-oid_to_string, IsOid,
}
use git_branchless.EventLog.{EventTransactionId, id, should_ignore_ref_updates, is_gc_ref}
use git_branchless.EventLog.Db.{
  EventLogDb, TxSource, tx_to_string, parse_tx, make_transaction_id, get_transaction_message,
  add_events, get_events,
}
use git_branchless.EventLog.Stored.{get_events-add_events, is_recorded, parse_tx-to_string, IsTx}
use git_branchless.Replay.{
  from_events, process_events, process_event, new, is_ignored, fix_event_git_v2_31, fill_old_oid,
  is_repeated_delete, push_event, record_commits, record_refs, push_info, inactive,
}
use git_branchless.Replay.History.{Inv, from_events-Inv}
use git_branchless.Replay.Status.{
  get_cursor_commit_activity_status, get_cursor_commit_latest_event, get_cursor_commit_history,
}
use git_branchless.Replay.Status.{get_cursor_oids}
use git_branchless.Replay.Status.Observed.{get_cursor_oids_lem}
use git_branchless.Replay.Status.Latest.{mentions}
use git_branchless.Prelude.{any_of}
use git_branchless.Replay.Status.Spec.{status_from, activity_status_lem}
use git_branchless.Replay.Status.Latest.{event_of, last_mention, latest_event_lem}
use git_branchless.Replay.Cursor.{
  at, advance_cursor_by_transaction, get_tx_events_before_cursor, slice,
}
use git_branchless.Replay.Cursor.Transactions.{EndsAtBoundary, advance-EndsAtBoundary}
use git_branchless.Replay.Cursor.TxEvents.{StartsAt, get_tx_events_lem}
use git_branchless.Replay.Refs.{RepoView}
use git_branchless.Rewrite.{find_rewrite_target, rewrite_target}
use git_branchless.Rewrite.Ends.{find_rewrite_target_ends, find_rewrite_target-ne}
use git_branchless.Prelude.{if◌then◌else◌, ◌++◌}
use git_branchless.Replay.{active, obsolete}
use git_branchless.Hide.{hide_events, unhide_events}
use git_branchless.Hide.Status.{
  current_status, current_status-hide_events, current_status-unhide_events,
}
use git_branchless.Gc.{Reference, is_hidden, is_dangling, dangling_among, find_dangling_references}
use git_branchless.Hide.Undone.{current_status-inverse_events}
use git_branchless.Undo.{inverse_events}
use git_branchless.Gc.Exact.{find_dangling_references_lem}
use git_branchless.Gc.Outcomes.{Answer}
use git_branchless.Examples.Fixtures.{tally_oids, tally_ints, a, b, log, replayer, cursor}

a-IsOid : IsOid a
a-IsOid = record { positive = omega arith; fits = omega arith }

b-IsOid : IsOid b
b-IsOid = record { positive = omega arith; fits = omega arith }

-- nothing of the log is dropped
replayed : replayer.events ≡ log
unfolding from_events process_events process_event new is_ignored fix_event_git_v2_31 fill_old_oid
    is_repeated_delete push_event record_commits record_refs push_info should_ignore_ref_updates
    is_gc_ref lookup insert remove update_entry
replayed = refl

parse_maybe_oid-to_string_example :
    parse_maybe_oid tally_oids (maybe_oid_to_string tally_oids (non_zero a)) ≡ ok (non_zero a)
parse_maybe_oid-to_string_example = parse_maybe_oid-to_string tally_oids (non_zero a) a-IsOid

parse_oid-oid_to_string_example : parse_oid tally_oids (oid_to_string tally_oids b) ≡ ok b
parse_oid-oid_to_string_example = parse_oid-oid_to_string tally_oids b b-IsOid

parse_tx-to_string_example :
    (IsTx (id (pos 7))
      → parse_tx tally_ints (tx_to_string tally_ints (id (pos 7))) ≡ some (id (pos 7)))
    × ((s : String) → parse_tx tally_ints s ≡ some (id (pos 7)) → IsTx (id (pos 7)))
parse_tx-to_string_example = parse_tx-to_string tally_ints (id (pos 7))

abbrev empty_db : EventLogDb
empty_db = record { event_log = []; event_transactions = (pos 1, "hide") ∷ [] }

-- a new transaction where none is handed on, and the one that is handed on
abbrev source : TxSource Unit
source = record { timestamp = ok 40; insert_row = λ db timestamp message. ok (pos 2) }

makes :
    (tx : EventTransactionId) × (db : EventLogDb) × (make_transaction_id tally_ints source none
        empty_db "undo"
      ≡ ok (tx, db))
    × (get_transaction_message db tx ≡ ok "undo")
unfolding make_transaction_id get_transaction_message lookup
makes = (
  id (pos 2),
  record { event_log = []; event_transactions = (pos 2, "undo") ∷ (pos 1, "hide") ∷ [] },
  refl,
  refl,
)

get_events-add_events_example :
    get_events tally_oids (add_events tally_oids empty_db log) ≡ ok ([] ++ keep is_recorded log)
unfolding get_events
get_events-add_events_example =
    get_events-add_events tally_oids empty_db [] log refl
      (a-IsOid, ((tt, a-IsOid), ((a-IsOid, b-IsOid), ((a-IsOid, b-IsOid), (b-IsOid, tt)))))

from_events-Inv_example : Inv replayer
from_events-Inv_example = from_events-Inv "refs/heads/main" log

activity_status_lem_example :
    get_cursor_commit_activity_status replayer (cursor 5) b
    ≡ status_from inactive (take 5 replayer.events) b
activity_status_lem_example = activity_status_lem "refs/heads/main" log (cursor 5) b

latest_event_lem_example :
    get_cursor_commit_latest_event replayer (cursor 4) a
    ≡ event_of (last_mention 0 (take 4 replayer.events) a)
latest_event_lem_example = latest_event_lem "refs/heads/main" log (cursor 4) a

three_within : 3 ≤ length replayer.events
three_within = rw replayed (omega arith)

advance-EndsAtBoundary_example :
    EndsAtBoundary replayer (advance_cursor_by_transaction replayer (at 3) (negsuc 0))
advance-EndsAtBoundary_example = advance-EndsAtBoundary replayer 3 (negsuc 0) three_within

get_tx_events_lem_example :
    (s : ℕ) × (get_tx_events_before_cursor replayer (at 3)
      ≡ some (some (s + 1, slice replayer s 3)))
    × StartsAt replayer s 3
get_tx_events_lem_example = get_tx_events_lem replayer 3 (omega arith) three_within

abbrev repo : RepoView String
repo = record {
  main_branch_name = ok "refs/heads/main";
  main_branch_oid = ok a;
  ignore_branches = ok [];
}

find_rewrite_target_ends_example :
    (x : Option MaybeZeroOid) × (find_rewrite_target 6 replayer (cursor 5) a ≡ some x)
find_rewrite_target_ends_example =
    find_rewrite_target_ends "refs/heads/main" log (cursor 5) a 6 (rw replayed (omega arith))

rewritten_to_b : find_rewrite_target 6 replayer (cursor 5) a ≡ some (some (non_zero b))
unfolding find_rewrite_target rewrite_target get_cursor_commit_latest_event
    get_cursor_commit_history from_events process_events process_event new is_ignored
    fix_event_git_v2_31 fill_old_oid is_repeated_delete push_event record_commits record_refs
    push_info should_ignore_ref_updates is_gc_ref lookup insert remove update_entry
rewritten_to_b = refl

find_rewrite_target-ne_example : b ≢ a
find_rewrite_target-ne_example =
    find_rewrite_target-ne "refs/heads/main" log (cursor 5) a 6 b rewritten_to_b

abbrev kept_b : Reference String
kept_b = record { get_name = ok "refs/branchless/b"; peel_to_commit = ok (some b) }

abbrev broken : Reference String
broken = record { get_name = ok "refs/branchless/c"; peel_to_commit = err "unresolved" }

-- one reference is found
finds : find_dangling_references replayer (cursor 5) (ok (kept_b ∷ [])) ≡ ok (kept_b ∷ [])
unfolding find_dangling_references dangling_among is_dangling is_hidden
    get_cursor_commit_activity_status get_cursor_commit_latest_event get_cursor_commit_history
    from_events process_events process_event new is_ignored fix_event_git_v2_31 fill_old_oid
    is_repeated_delete push_event record_commits record_refs push_info should_ignore_ref_updates
    is_gc_ref lookup insert remove update_entry
finds = refl

-- and a broken one after it stops the search
stops : find_dangling_references replayer (cursor 5) (ok (kept_b ∷ broken ∷ [])) ≡ err "unresolved"
unfolding find_dangling_references dangling_among is_dangling is_hidden
    get_cursor_commit_activity_status get_cursor_commit_latest_event get_cursor_commit_history
    from_events process_events process_event new is_ignored fix_event_git_v2_31 fill_old_oid
    is_repeated_delete push_event record_commits record_refs push_info should_ignore_ref_updates
    is_gc_ref lookup insert remove update_entry
stops = refl

find_dangling_references_lem_example :
    Answer
      (take 5 replayer.events)
      (ok (kept_b ∷ broken ∷ []))
      (find_dangling_references replayer (cursor 5) (ok (kept_b ∷ broken ∷ [])))
find_dangling_references_lem_example =
    find_dangling_references_lem "refs/heads/main" log (cursor 5) (ok (kept_b ∷ broken ∷ []))

current_status-inverse_events_example :
    let hides = hide_events 50 (id (pos 5)) (b ∷ []) in
    current_status "refs/heads/main" ((log ++ hides) ++ inverse_events 60 (id (pos 6)) hides) b
    ≡ (if contains (b ∷ []) b then active else current_status "refs/heads/main" log b)
current_status-inverse_events_example =
    current_status-inverse_events "refs/heads/main" log 50 60 (id (pos 5)) (id (pos 6)) (b ∷ []) b

get_cursor_oids_lem_example :
    contains (get_cursor_oids replayer (cursor 1)) b
    ≡ any_of (λ e. mentions e b) (take 1 replayer.events)
get_cursor_oids_lem_example = get_cursor_oids_lem "refs/heads/main" log (cursor 1) b

current_status-hide_events_example :
    current_status "refs/heads/main" (log ++ hide_events 50 (id (pos 5)) (a ∷ [])) a
    ≡ (if contains (a ∷ []) a then obsolete else current_status "refs/heads/main" log a)
current_status-hide_events_example =
    current_status-hide_events "refs/heads/main" log 50 (id (pos 5)) (a ∷ []) a

current_status-unhide_events_example :
    current_status "refs/heads/main" (log ++ unhide_events 50 (id (pos 5)) (b ∷ [])) b
    ≡ (if contains (b ∷ []) b then active else current_status "refs/heads/main" log b)
current_status-unhide_events_example =
    current_status-unhide_events "refs/heads/main" log 50 (id (pos 5)) (b ∷ []) b

glob_match_iff_example :
    (glob_match (text_of "release/*-x") (text_of "release/1-x") ≡ true)
    ↔ Matches (text_of "release/*-x") (text_of "release/1-x")
glob_match_iff_example = glob_match_iff (text_of "release/*-x") (text_of "release/1-x")
