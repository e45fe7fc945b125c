-- ===== src/Replay/History.antt =====
-- eventlog.rs: what the replayer keeps about commits and references.
use mathlib.Core.List.{append_assoc, append-nil}
use native.Mathlib.Nat.{add-zero, zero-add}
use git_branchless.Prelude.{
  ℕ, suc, ◌+◌, ◌≡◌, refl, Option, none, some, Bool-cases, Option-cases, inl, inr, ◌==◌,
  if◌then◌else◌, List, [], ◌∷◌, ◌++◌, ◌⊎◌, length, length-append, arith, string_eq,
}
use git_branchless.Prelude.Map.{
  Map, lookup, lookup_list, lookup-insert, lookup-remove, lookup-update_entry,
}
use git_branchless.Oid.{NonZeroOid, MaybeZeroOid, non_zero, oid_eq}
use git_branchless.EventLog.{
  ReferenceName, Event, rewrite_event, ref_update_event, commit_event, obsolete_event,
  unobsolete_event, working_copy_snapshot,
}
use git_branchless.Replay.{
  EventClassification, show, hide, EventInfo, EventReplayer, new, fix_event_git_v2_31, push_info,
  push_maybe, record_commits, record_refs, is_ignored, push_event, process_event, process_events,
  from_events,
}

-- the entries that an event adds to the history of a commit
abbrev pub info_if : MaybeZeroOid → NonZeroOid → ℕ → Event → EventClassification → List EventInfo
info_if MaybeZeroOid.zero o id e c = []
info_if (non_zero oid) o id e c =
    if oid == o then record { id = id; event = e; event_classification = c } ∷ [] else []

abbrev pub infos : ℕ → Event → NonZeroOid → List EventInfo
infos id (rewrite_event t tx old new) o =
    info_if old o id (rewrite_event t tx old new) hide
    ++ info_if new o id (rewrite_event t tx old new) show
infos id (ref_update_event _ _ _ _ _ _) o = []
infos id (commit_event t tx oid) o = info_if (non_zero oid) o id (commit_event t tx oid) show
infos id (obsolete_event t tx oid) o = info_if (non_zero oid) o id (obsolete_event t tx oid) hide
infos id (unobsolete_event t tx oid) o =
    info_if (non_zero oid) o id (unobsolete_event t tx oid) show
infos id (working_copy_snapshot _ _ _ _ _) o = []

-- the history of a commit, from the list of events, the first of them numbered `n`
unfoldable pub history_from : ℕ → List Event → NonZeroOid → List EventInfo
history_from n [] o = []
history_from n (e ∷ es) o = infos n e o ++ history_from (suc n) es o

-- where a reference is after an event
abbrev pub move_ref : ReferenceName → Option NonZeroOid → Event → Option NonZeroOid
move_ref name at (ref_update_event _ _ moved _ (non_zero oid) _) =
    if moved == name then some oid else at
move_ref name at (ref_update_event _ _ moved _ MaybeZeroOid.zero _) =
    if moved == name then none else at
move_ref name at _ = at

unfoldable pub location_from : Option NonZeroOid → List Event → ReferenceName → Option NonZeroOid
location_from at [] name = at
location_from at (e ∷ es) name = location_from (move_ref name at e) es name

pub record Inv (r : EventReplayer) : Type 0 where
  pub counted : r.id_counter ≡ length r.events
  pub histories : (o : NonZeroOid) → lookup_list o r.commit_history ≡ history_from 0 r.events o
  pub locations :
      (name : ReferenceName) → lookup name r.ref_locations ≡ location_from none r.events name

history_from-append :
    (n : ℕ) (es : List Event) (e : Event) (o : NonZeroOid)
    → history_from n (es ++ e ∷ []) o ≡ history_from n es o ++ infos (n + length es) e o
unfolding history_from
history_from-append n [] e o = rw (append-nil, add-zero)
history_from-append n (d ∷ es) e o =
    let moved : suc n + length es ≡ n + suc (length es) = omega arith in
    rw (history_from-append (suc n) es e o, moved, append_assoc)

location_from-append :
    (at : Option NonZeroOid) (es : List Event) (e : Event) (name : ReferenceName)
    → location_from at (es ++ e ∷ []) name ≡ move_ref name (location_from at es name) e
unfolding location_from
location_from-append at [] e name = refl
location_from-append at (d ∷ es) e name = location_from-append (move_ref name at d) es e name

lookup_list-push_maybe :
    (oid : MaybeZeroOid) (o : NonZeroOid) (id : ℕ) (e : Event) (c : EventClassification)
    (m : Map NonZeroOid (List EventInfo))
    → lookup_list o (push_maybe oid id e c m) ≡ lookup_list o m ++ info_if oid o id e c
unfolding push_info
lookup_list-push_maybe MaybeZeroOid.zero o id e c m = rw append-nil
lookup_list-push_maybe (non_zero oid) o id e c m = elim (Bool-cases (oid == o)) [
  | inl same ↦ rw (lookup-update_entry, same)
  | inr other ↦ rw (lookup-update_entry, other, append-nil)
]

lookup_list-record_commits :
    (o : NonZeroOid) (id : ℕ) (e : Event) (m : Map NonZeroOid (List EventInfo))
    → lookup_list o (record_commits id e m) ≡ lookup_list o m ++ infos id e o
unfolding record_commits
lookup_list-record_commits o id (rewrite_event t tx old new) m =
    rw (lookup_list-push_maybe, lookup_list-push_maybe, append_assoc)
lookup_list-record_commits o id (ref_update_event _ _ _ _ _ _) m = rw append-nil
lookup_list-record_commits o id (commit_event t tx oid) m =
    lookup_list-push_maybe (non_zero oid) o id _ show m
lookup_list-record_commits o id (obsolete_event t tx oid) m =
    lookup_list-push_maybe (non_zero oid) o id _ hide m
lookup_list-record_commits o id (unobsolete_event t tx oid) m =
    lookup_list-push_maybe (non_zero oid) o id _ show m
lookup_list-record_commits o id (working_copy_snapshot _ _ _ _ _) m = rw append-nil

lookup-record_refs :
    (name : ReferenceName) (e : Event) (m : Map ReferenceName NonZeroOid)
    → lookup name (record_refs e m) ≡ move_ref name (lookup name m) e
unfolding record_refs
lookup-record_refs name (ref_update_event _ _ moved _ (non_zero oid) _) m =
    lookup-insert moved name oid m
lookup-record_refs name (ref_update_event _ _ moved _ MaybeZeroOid.zero _) m =
    lookup-remove moved name m
lookup-record_refs name (rewrite_event _ _ _ _) m = refl
lookup-record_refs name (commit_event _ _ _) m = refl
lookup-record_refs name (obsolete_event _ _ _) m = refl
lookup-record_refs name (unobsolete_event _ _ _) m = refl
lookup-record_refs name (working_copy_snapshot _ _ _ _ _) m = refl

push_event-Inv : (r : EventReplayer) (e : Event) → Inv r → Inv (push_event r e)
unfolding push_event
push_event-Inv r e h = record {
  counted = omega (arith, length-append r.events (e ∷ []), h.counted);
  histories = λ o. rw (
    lookup_list-record_commits o r.id_counter e r.commit_history,
    h.histories o,
    h.counted,
    history_from-append 0 r.events e o,
    zero-add,
  );
  locations = λ name. rw (
    lookup-record_refs name e r.ref_locations,
    h.locations name,
    location_from-append none r.events e name,
  );
}

-- an event is dropped, or pushed as `fix_event_git_v2_31` left it
pub process_event-cases :
    (r : EventReplayer) (e : Event)
    → (process_event r e ≡ r)
      ⊎ ((e' : Event) × (fix_event_git_v2_31 r e ≡ some e') × (process_event r e ≡ push_event r e'))
unfolding process_event
process_event-cases r e = elim (Bool-cases (is_ignored e)) [
  | inl ignored ↦ inl (rw ignored)
  | inr kept ↦ elim (Option-cases (fix_event_git_v2_31 r e)) [
    | inl repeated ↦ inl (rw (kept, repeated, process_event))
    | inr (e', fixed) ↦ inr (e', fixed, rw (kept, fixed, process_event))
  ]
]

pub process_event-Inv : (r : EventReplayer) (e : Event) → Inv r → Inv (process_event r e)
process_event-Inv r e h = elim (process_event-cases r e) [
  | inl dropped ↦ rw dropped h
  | inr (e', fixed, pushed) ↦ rw pushed (push_event-Inv r e' h)
]

pub process_events-Inv : (r : EventReplayer) (es : List Event) → Inv r → Inv (process_events r es)
unfolding process_events
process_events-Inv r [] h = h
process_events-Inv r (e ∷ es) h =
    process_events-Inv (process_event r e) es (process_event-Inv r e h)

-- Whatever the events, the replayer's counter is the number of events kept, the history of a commit
-- is read off the list of events, and a reference is where the events last moved it.
pub from_events-Inv : (main : ReferenceName) (es : List Event) → Inv (from_events main es)
unfolding from_events new history_from location_from lookup
from_events-Inv main es =
    process_events-Inv (new main) es
      (record { counted = refl; histories = λ o. refl; locations = λ name. refl })
