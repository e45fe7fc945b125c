-- ===== src/Undo.antt =====
-- git-branchless-undo/src/lib.rs: the events that undo others, and their application.
-- The references of the repository are a map from names to commits; `git checkout` and HEAD itself
-- are outside, so the result says what is to be checked out.
pub mod Moves
pub mod Restores
pub mod Logs
pub mod Visible
use mathlib.Core.List.{reverse}
use git_branchless.Prelude.{
  ℕ, Option, none, some, Bool, true, false, not, ◌==◌, string_eq, if◌then◌else◌, List, [], ◌∷◌,
  ◌++◌, map, keep, is_empty, String, Result, ok, err, ◌>>=◌,
}
use git_branchless.Prelude.Map.{Map, lookup, insert, remove}
use git_branchless.Oid.{NonZeroOid, MaybeZeroOid, non_zero, OidText}
use git_branchless.EventLog.{
  ReferenceName, EventTransactionId, Event, rewrite_event, ref_update_event, commit_event,
  obsolete_event, unobsolete_event, working_copy_snapshot,
}
use git_branchless.EventLog.Db.{EventLogDb, add_events}
use git_branchless.Reference.{categorize, render_suffix}
use git_branchless.Replay.{EventCursor, EventReplayer}
use git_branchless.Replay.Cursor.{get_events_since_cursor}

-- `now` as a timestamp, and the transaction of the undo
unfoldable pub inverse_event : ℕ → EventTransactionId → Event → Event
inverse_event now tx (commit_event _ _ oid) = obsolete_event now tx oid
inverse_event now tx (unobsolete_event _ _ oid) = obsolete_event now tx oid
inverse_event now tx (obsolete_event _ _ oid) = unobsolete_event now tx oid
inverse_event now tx (rewrite_event _ _ old new) = rewrite_event now tx new old
inverse_event now tx (ref_update_event _ _ name old new _) =
    ref_update_event now tx name new old none
inverse_event now tx (working_copy_snapshot t tx' head oid name) =
    working_copy_snapshot t tx' head oid name

-- the `filter` of `undo_events`: HEAD is not moved back to where it was not
unfoldable pub is_undone : Event → Bool
is_undone (ref_update_event _ _ name MaybeZeroOid.zero _ _) = not (name == "HEAD")
is_undone _ = true

unfoldable pub inverse_events : ℕ → EventTransactionId → List Event → List Event
unfolding inverse_event is_undone
inverse_events now tx events = map (inverse_event now tx) (keep is_undone (reverse events))

-- `CheckoutTarget::Oid` with the additional arguments of `CheckOutCommitOptions`; the other options
-- are the same for every undo.
pub record UndoCheckoutTarget : Type 0 where
  pub target : NonZeroOid
  pub additional_args : List String

abbrev checkout_args : Option ReferenceName → List String
checkout_args none = []
checkout_args (some name) = "-B" ∷ render_suffix (categorize name) ∷ []

-- what the loop of `extract_checkout_target` does with an event
pub data Extracted : Type 0 where
  checkout : UndoCheckoutTarget → Extracted
  kept : Extracted

unfoldable pub extract : Event → Extracted
extract (ref_update_event _ _ name _ (non_zero new) _) =
    if name == "HEAD"
    then checkout (record { target = new; additional_args = "--detach" ∷ [] })
    else kept
extract (working_copy_snapshot _ _ _ oid name) =
    checkout (record { target = oid; additional_args = checkout_args name })
extract _ = kept

unfoldable pub extract_from :
    Option UndoCheckoutTarget → List Event → List Event → Option UndoCheckoutTarget × List Event
extract_from target new_events [] = (target, new_events)
extract_from target new_events (e ∷ es) = elim (extract e) [
  | checkout t ↦ extract_from (some t) new_events es
  | kept ↦ extract_from target (new_events ++ e ∷ []) es
]

unfoldable pub extract_checkout_target : List Event → Option UndoCheckoutTarget × List Event
unfolding extract_from extract
extract_checkout_target events = extract_from none [] events

-- the references of the repository and the event log
pub record UndoState : Type 0 where
  pub refs : Map ReferenceName NonZeroOid
  pub db : EventLogDb

-- Whether git can look for a reference and accepts its deletion and its creation, and whether the
-- database accepts an event; what is done then is written out below.
pub record UndoRepo (E : Type 0) : Type 0 where
  pub find_reference : Map ReferenceName NonZeroOid → ReferenceName → Result E Unit
  pub delete : Map ReferenceName NonZeroOid → ReferenceName → Result E Unit
  pub create_reference : Map ReferenceName NonZeroOid → ReferenceName → NonZeroOid → Result E Unit
  pub insert_event : EventLogDb → Event → Result E Unit

-- An error comes with the state that it leaves.
pub data UndoResult (E : Type 0) : Type 0 where
  nothing_to_undo aborted : UndoResult E
  failed : UndoState → E → UndoResult E
  applied : UndoState → Option UndoCheckoutTarget → UndoResult E

-- the new state if it is accepted, or the old one with the error
abbrev pub accepted :
    {E : Type 0} → Result E Unit → UndoState → UndoState → Result (UndoState × E) UndoState
accepted (ok _) s s' = ok s'
accepted (err e) s s' = err (s, e)

module _ {E : Type 0} (git : OidText) (repo : UndoRepo E) where
  abbrev pub log_event : UndoState → Event → Result (UndoState × E) UndoState
  log_event s e =
      accepted (repo.insert_event s.db e) s (record s { db = add_events git s.db (e ∷ []) })

  abbrev pub create : UndoState → ReferenceName → NonZeroOid → Result (UndoState × E) UndoState
  create s name new =
      accepted (repo.create_reference s.refs name new) s
        (record s { refs = insert name new s.refs })

  abbrev pub delete_found :
      UndoState → ReferenceName → Option NonZeroOid → Result (UndoState × E) UndoState
  delete_found s name none = ok s
  delete_found s name (some _) =
      accepted (repo.delete s.refs name) s (record s { refs = remove name s.refs })

  -- the body of the loop over the filtered events
  unfoldable pub apply_undo : UndoState → Event → Result (UndoState × E) UndoState
  apply_undo s (ref_update_event _ _ _ MaybeZeroOid.zero MaybeZeroOid.zero _) = ok s
  apply_undo s (ref_update_event _ _ name (non_zero _) MaybeZeroOid.zero _) =
      accepted (repo.find_reference s.refs name) s s >>= λ found.
      delete_found found name (lookup name found.refs)
  apply_undo s (ref_update_event _ _ name MaybeZeroOid.zero (non_zero new) _) = create s name new
  apply_undo s (ref_update_event _ _ name (non_zero _) (non_zero new) _) = create s name new
  apply_undo s (working_copy_snapshot _ _ _ _ _) = ok s
  apply_undo s (commit_event t tx oid) = log_event s (commit_event t tx oid)
  apply_undo s (obsolete_event t tx oid) = log_event s (obsolete_event t tx oid)
  apply_undo s (unobsolete_event t tx oid) = log_event s (unobsolete_event t tx oid)
  apply_undo s (rewrite_event t tx old new) = log_event s (rewrite_event t tx old new)

  unfoldable pub apply_all : UndoState → List Event → Result (UndoState × E) UndoState
  unfolding apply_undo
  apply_all s [] = ok s
  apply_all s (e ∷ es) = apply_undo s e >>= λ s'. apply_all s' es

  -- `undo_events` up to the checkout; `confirmed` is the flag or the answer of the user
  unfoldable pub undo_events :
      ℕ → EventTransactionId → Bool → EventReplayer → EventCursor → UndoState → UndoResult E
  unfolding inverse_events extract_checkout_target apply_all get_events_since_cursor
  undo_events now tx confirmed r cursor s =
      let events = inverse_events now tx (get_events_since_cursor r cursor) in
      if is_empty events
      then nothing_to_undo
      else if not confirmed
      then aborted
      else (let (target, filtered) = extract_checkout_target events in
          elim (apply_all s filtered) [ ok s' ↦ applied s' target | err (s', e) ↦ failed s' e ])
