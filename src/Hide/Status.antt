-- ===== src/Hide/Status.antt =====
-- git-branchless/src/commands/hide.rs: what hiding and unhiding do to the statuses of commits.
use mathlib.Core.List.{append_assoc, append-nil}
use git_branchless.Prelude.{
  ℕ, ◌≡◌, refl, sym, ap, ◌∙◌, Bool, true, false, Bool-cases, inl, inr, ◌==◌, if◌then◌else◌, ◌||◌,
  List, [], ◌∷◌, ◌++◌, length, take, take-length, contains, ltb, arith,
}
use git_branchless.Oid.{NonZeroOid, oid_eq}
use git_branchless.EventLog.{
  ReferenceName, EventTransactionId, Event, obsolete_event, unobsolete_event,
}
use git_branchless.Replay.{
  CommitActivityStatus, active, inactive, obsolete, EventReplayer, is_ignored, fix_event_git_v2_31,
  fill_old_oid, is_repeated_delete, push_event, process_event, process_events, from_events, new,
}
use git_branchless.Replay.Cursor.{make_default_cursor, make_cursor, make_cursor_ℕ}
use git_branchless.Replay.Status.{get_cursor_commit_activity_status}
use git_branchless.Replay.Status.Spec.{
  observe, status_from, activity_status_lem, status_from-append,
}
use git_branchless.Hide.{hide_events, unhide_events}

process_events-append :
    (r : EventReplayer) (es ds : List Event)
    → process_events r (es ++ ds) ≡ process_events (process_events r es) ds
unfolding process_events
process_events-append r [] ds = refl
process_events-append r (e ∷ es) ds = process_events-append (process_event r e) es ds

-- hidden and unhidden commits are all replayed
replayed_hide :
    (r : EventReplayer) (time : ℕ) (tx : EventTransactionId) (commits : List NonZeroOid)
    → (process_events r (hide_events time tx commits)).events
      ≡ r.events ++ hide_events time tx commits
unfolding hide_events process_events process_event is_ignored fix_event_git_v2_31 fill_old_oid
    is_repeated_delete push_event
replayed_hide r time tx [] = sym (append-nil r.events)
replayed_hide r time tx (o ∷ commits) =
    replayed_hide (push_event r (obsolete_event time tx o)) time tx commits
    ∙ append_assoc r.events (obsolete_event time tx o ∷ []) (hide_events time tx commits)

replayed_unhide :
    (r : EventReplayer) (time : ℕ) (tx : EventTransactionId) (commits : List NonZeroOid)
    → (process_events r (unhide_events time tx commits)).events
      ≡ r.events ++ unhide_events time tx commits
unfolding unhide_events process_events process_event is_ignored fix_event_git_v2_31 fill_old_oid
    is_repeated_delete push_event
replayed_unhide r time tx [] = sym (append-nil r.events)
replayed_unhide r time tx (o ∷ commits) =
    replayed_unhide (push_event r (unobsolete_event time tx o)) time tx commits
    ∙ append_assoc r.events (unobsolete_event time tx o ∷ []) (unhide_events time tx commits)

either :
    {A : Type 0} (x y : A) (a b : Bool)
    → (if a then x else (if b then x else y)) ≡ (if b || a then x else y)
either x y true true = refl
either x y true false = refl
either x y false true = refl
either x y false false = refl

status_from-hide_events :
    (s : CommitActivityStatus) (time : ℕ) (tx : EventTransactionId) (commits : List NonZeroOid)
    (o : NonZeroOid)
    → status_from s (hide_events time tx commits) o ≡ (if contains commits o then obsolete else s)
unfolding status_from hide_events
status_from-hide_events s time tx [] o = refl
status_from-hide_events s time tx (c ∷ commits) o =
    status_from-hide_events (observe o s (obsolete_event time tx c)) time tx commits o
    ∙ either obsolete s (contains commits o) (c == o)

status_from-unhide_events :
    (s : CommitActivityStatus) (time : ℕ) (tx : EventTransactionId) (commits : List NonZeroOid)
    (o : NonZeroOid)
    → status_from s (unhide_events time tx commits) o ≡ (if contains commits o then active else s)
unfolding status_from unhide_events
status_from-unhide_events s time tx [] o = refl
status_from-unhide_events s time tx (c ∷ commits) o =
    status_from-unhide_events (observe o s (unobsolete_event time tx c)) time tx commits o
    ∙ either active s (contains commits o) (c == o)

-- the status of a commit after all the events of a log
pub current_status : ReferenceName → List Event → NonZeroOid → CommitActivityStatus
current_status main es o =
    let r = from_events main es in get_cursor_commit_activity_status r (make_default_cursor r) o

take_all :
    (es : List Event) (r : EventReplayer)
    → r.events ≡ es
    → take (make_default_cursor r).event_id r.events ≡ es
unfolding make_default_cursor make_cursor make_cursor_ℕ
take_all es r h = elim (Bool-cases (ltb (length r.events) (length r.events))) [
  | inl less ↦ absurd (ground arith)
  | inr not_less ↦ rw not_less (take-length r.events ∙ h)
]

current_status-from :
    (main : ReferenceName) (es : List Event) (o : NonZeroOid)
    → current_status main es o ≡ status_from inactive (from_events main es).events o
unfolding current_status
current_status-from main es o =
    let r = from_events main es in
    activity_status_lem main es (make_default_cursor r) o
    ∙ ap (λ l. status_from inactive l o) (take_all r.events r refl)

-- With the events of `hide` after those of a log, the commits that are hidden are obsolete,
-- whatever their status was, and the others have the status that they had.
pub current_status-hide_events :
    (main : ReferenceName) (es : List Event) (time : ℕ) (tx : EventTransactionId)
    (commits : List NonZeroOid) (o : NonZeroOid)
    → current_status main (es ++ hide_events time tx commits) o
      ≡ (if contains commits o then obsolete else current_status main es o)
unfolding from_events
current_status-hide_events main es time tx commits o =
    current_status-from main (es ++ hide_events time tx commits) o
    ∙ ap (λ r. status_from inactive r.events o)
        (process_events-append (new main) es (hide_events time tx commits))
    ∙ ap (λ l. status_from inactive l o) (replayed_hide (from_events main es) time tx commits)
    ∙ status_from-append inactive (from_events main es).events (hide_events time tx commits) o
    ∙ status_from-hide_events (status_from inactive (from_events main es).events o) time tx commits
        o
    ∙ ap (λ s. if contains commits o then obsolete else s) (sym (current_status-from main es o))

-- With the events of `unhide` after those of a log, the commits that are unhidden are active,
-- whatever their status was, and the others have the status that they had.
pub current_status-unhide_events :
    (main : ReferenceName) (es : List Event) (time : ℕ) (tx : EventTransactionId)
    (commits : List NonZeroOid) (o : NonZeroOid)
    → current_status main (es ++ unhide_events time tx commits) o
      ≡ (if contains commits o then active else current_status main es o)
unfolding from_events
current_status-unhide_events main es time tx commits o =
    current_status-from main (es ++ unhide_events time tx commits) o
    ∙ ap (λ r. status_from inactive r.events o)
        (process_events-append (new main) es (unhide_events time tx commits))
    ∙ ap (λ l. status_from inactive l o) (replayed_unhide (from_events main es) time tx commits)
    ∙ status_from-append inactive (from_events main es).events (unhide_events time tx commits) o
    ∙ status_from-unhide_events (status_from inactive (from_events main es).events o) time tx
        commits o
    ∙ ap (λ s. if contains commits o then active else s) (sym (current_status-from main es o))
