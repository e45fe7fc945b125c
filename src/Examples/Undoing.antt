-- ===== src/Examples/Undoing.antt =====
-- The theorems on undoing, at the last two transactions of a log.
use git_branchless.Prelude.{
  ◌≡◌, ◌≢◌, refl, pos, none, some, true, string_eq, ==_iff, List, [], ◌∷◌, ◌++◌,
}
use git_branchless.Prelude.Map.{lookup, insert, remove, update_entry}
use git_branchless.Prelude.{ok}
use git_branchless.EventLog.Db.{add_events}
use git_branchless.Oid.{non_zero, oid_eq}
use git_branchless.EventLog.{
  ReferenceName, id, Event, rewrite_event, ref_update_event, obsolete_event, unobsolete_event,
  is_gc_ref, should_ignore_ref_updates,
}
use git_branchless.Replay.{
  active, from_events, process_events, process_event, new, is_ignored, fix_event_git_v2_31,
  fill_old_oid, is_repeated_delete, push_event, record_commits, record_refs, push_info,
}
use git_branchless.Replay.Cursor.{get_events_since_cursor}
use git_branchless.Replay.Status.Spec.{status_from}
use git_branchless.Replay.History.{location_from}
use git_branchless.Undo.{
  inverse_event, is_undone, inverse_events, extract, extract_from, extract_checkout_target,
  UndoState, UndoRepo, apply_undo, apply_all, applied, undo_events,
}
use git_branchless.Undo.Restores.{undo_restores}
use git_branchless.Undo.Visible.{is_active, inverse_events-active}
use git_branchless.Examples.Fixtures.{tally_oids, a, b, replayer, cursor}

-- the repository after the log
abbrev repository : UndoState
repository = record {
  refs = ("refs/heads/x", b) ∷ [];
  db = record { event_log = []; event_transactions = [] };
}

-- the events of the last two transactions
abbrev last_two : List Event
last_two =
    rewrite_event 20 (id (pos 2)) (non_zero a) (non_zero b)
    ∷ ref_update_event 20 (id (pos 2)) "refs/heads/x" (non_zero a) (non_zero b) none
    ∷ obsolete_event 30 (id (pos 3)) b
    ∷ []

since_cursor : get_events_since_cursor replayer (cursor 2) ≡ last_two
unfolding get_events_since_cursor from_events process_events process_event new is_ignored
    fix_event_git_v2_31 fill_old_oid is_repeated_delete push_event record_commits record_refs
    push_info should_ignore_ref_updates is_gc_ref lookup insert remove update_entry
since_cursor = refl

-- Git and the database accept everything.
abbrev accepting : UndoRepo Unit
accepting = record {
  find_reference = λ refs name. ok tt;
  delete = λ refs name. ok tt;
  create_reference = λ refs name o. ok tt;
  insert_event = λ db e. ok tt;
}

-- the repository after the undo
abbrev undone : UndoState
undone = record {
  refs = ("refs/heads/x", a) ∷ [];
  db =
      add_events tally_oids
        (add_events tally_oids repository.db (unobsolete_event 40 (id (pos 4)) b ∷ []))
        (rewrite_event 40 (id (pos 4)) (non_zero b) (non_zero a) ∷ []);
}

undoes :
    undo_events tally_oids accepting 40 (id (pos 4)) true replayer (cursor 2) repository
    ≡ applied undone none
unfolding undo_events inverse_events inverse_event is_undone extract_checkout_target extract_from
    extract apply_all apply_undo insert
undoes = rw (since_cursor, since_cursor) refl

abbrev branch : ReferenceName
branch = "refs/heads/x"

not_head : branch ≢ "HEAD"
not_head e = cc ((==_iff branch "HEAD").1 e)

undo_restores_example : lookup "refs/heads/x" undone.refs ≡ some a
unfolding lookup location_from
undo_restores_example =
    undo_restores tally_oids accepting 40 (id (pos 4)) replayer (cursor 2) repository undone none
      branch (some a) undoes not_head (rw since_cursor (tt, ((λ _. refl), (tt, tt))))
      (rw since_cursor refl)

inverse_events-active_example :
    is_active (status_from active (last_two ++ inverse_events 40 (id (pos 4)) last_two) a) ≡ true
inverse_events-active_example =
    inverse_events-active 40 (id (pos 4)) a active last_two
      (((λ _. refl), (λ h. absurd (cc h))), (tt, ((λ h. absurd (cc h)), tt)))
