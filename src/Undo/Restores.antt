-- ===== src/Undo/Restores.antt =====
-- git-branchless-undo/src/lib.rs: what undoing does to the references.
use mathlib.Core.List.{reverse, reverse-cons, map-append}
use git_branchless.Prelude.{
  ℕ, ◌≡◌, ◌≢◌, refl, ap, ◌∙◌, Option, none, true, Bool-cases, inl, inr, ==_iff, ◌==◌, string_eq,
  List, [], ◌∷◌, map, arith, Yields-ok,
}
use git_branchless.Prelude.Map.{lookup}
use git_branchless.Oid.{NonZeroOid, MaybeZeroOid, non_zero, from_option, OidText}
use git_branchless.EventLog.{
  ReferenceName, EventTransactionId, Event, rewrite_event, ref_update_event, commit_event,
  obsolete_event, unobsolete_event, working_copy_snapshot,
}
use git_branchless.Replay.{EventCursor, EventReplayer}
use git_branchless.Replay.Cursor.{get_events_since_cursor}
use git_branchless.Replay.History.{move_ref, location_from}
use git_branchless.Undo.{
  inverse_event, inverse_events, UndoCheckoutTarget, extract_checkout_target, UndoState, UndoRepo,
  apply_all, applied, undo_events,
}
use git_branchless.Undo.Moves.{
  undo_events-applied, undo_move, undo_from, lookup-apply_all, undo_from-append, extract_from_lem,
  undo_from-kept, undo_from-undone,
}

-- An update of the reference records where the reference was.
abbrev pub SaysWhere : ReferenceName → Option NonZeroOid → Event → Type 0
SaysWhere name at (ref_update_event _ _ moved old _ _) = moved ≡ name → old ≡ from_option at
SaysWhere name at _ = Unit

abbrev pub AllSayWhere : ReferenceName → Option NonZeroOid → List Event → Type 0
AllSayWhere name at [] = Unit
AllSayWhere name at (e ∷ es) = SaysWhere name at e × AllSayWhere name (move_ref name at e) es

module _ (now : ℕ) (tx : EventTransactionId) (name : ReferenceName) where
  undo_one :
      (at : Option NonZeroOid) (e : Event)
      → SaysWhere name at e
      → undo_move name (move_ref name at e) (inverse_event now tx e) ≡ at
  unfolding inverse_event
  undo_one at (ref_update_event t x moved MaybeZeroOid.zero MaybeZeroOid.zero msg) h =
      elim (Bool-cases (moved == name)) [
        | inl same ↦ let was = h ((==_iff moved name).0 same) in ground arith
        | inr other ↦ rw other
      ]
  undo_one at (ref_update_event t x moved MaybeZeroOid.zero (non_zero new) msg) h =
      elim (Bool-cases (moved == name)) [
        | inl same ↦ let was = h ((==_iff moved name).0 same) in ground arith
        | inr other ↦ rw other
      ]
  undo_one at (ref_update_event t x moved (non_zero old) MaybeZeroOid.zero msg) h =
      elim (Bool-cases (moved == name)) [
        | inl same ↦ let was = h ((==_iff moved name).0 same) in ground arith
        | inr other ↦ rw other
      ]
  undo_one at (ref_update_event t x moved (non_zero old) (non_zero new) msg) h =
      elim (Bool-cases (moved == name)) [
        | inl same ↦ let was = h ((==_iff moved name).0 same) in ground arith
        | inr other ↦ rw other
      ]
  undo_one at (working_copy_snapshot _ _ _ _ _) h = refl
  undo_one at (commit_event _ _ _) h = refl
  undo_one at (obsolete_event _ _ _) h = refl
  undo_one at (unobsolete_event _ _ _) h = refl
  undo_one at (rewrite_event _ _ _ _) h = refl

  undo_all :
      (at : Option NonZeroOid) (es : List Event)
      → AllSayWhere name at es
      → undo_from name (location_from at es name) (map (inverse_event now tx) (reverse es)) ≡ at
  unfolding location_from undo_from
  undo_all at [] h = refl
  undo_all at (e ∷ es) h =
      let inverse = inverse_event now tx in
      let moved = location_from (move_ref name at e) es name in
      ap (λ l. undo_from name moved (map inverse l)) (reverse-cons e es)
      ∙ ap (undo_from name moved) (map-append inverse (reverse es) (e ∷ []))
      ∙ undo_from-append name moved (map inverse (reverse es)) (inverse e ∷ [])
      ∙ ap (λ a. undo_move name a (inverse e)) (undo_all (move_ref name at e) es h.1)
      ∙ undo_one at e h.0

module _ {E : Type 0} (git : OidText) (repo : UndoRepo E) (now : ℕ) (tx : EventTransactionId)
    (r : EventReplayer) (cursor : EventCursor) where
  -- An undo that is confirmed and has something to do puts every reference but HEAD back to where it
  -- was at the cursor, if the updates since then record where they found it and the repository has
  -- it where they left it.
  pub undo_restores :
      (s s' : UndoState) (target : Option UndoCheckoutTarget) (name : ReferenceName)
      (at : Option NonZeroOid)
      → undo_events git repo now tx true r cursor s ≡ applied s' target
      → name ≢ "HEAD"
      → AllSayWhere name at (get_events_since_cursor r cursor)
      → lookup name s.refs ≡ location_from at (get_events_since_cursor r cursor) name
      → lookup name s'.refs ≡ at
  unfolding extract_checkout_target inverse_events
  undo_restores s s' target name at done not_head says left =
      let since = get_events_since_cursor r cursor in
      let events = inverse_events now tx since in
      let filtered = (extract_checkout_target events).1 in
      Yields-ok (λ _. Unit) (λ x. lookup name x.refs ≡ undo_from name (lookup name s.refs) filtered)
        (apply_all git repo s filtered) s' (lookup-apply_all git repo s filtered name)
        (undo_events-applied git repo now tx r cursor s s' target done)
      ∙ rw (left, extract_from_lem none [] events)
          (undo_from-kept name not_head (location_from at since name) events
            ∙ undo_from-undone name not_head now tx (location_from at since name) (reverse since)
            ∙ undo_all now tx name at since says)
