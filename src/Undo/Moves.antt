-- ===== src/Undo/Moves.antt =====
-- git-branchless-undo/src/lib.rs: where an undo leaves a reference, as its events determine it.
use mathlib.Core.List.{append_assoc, append-nil}
use git_branchless.Prelude.{
  ℕ, ◌≡◌, ◌≢◌, refl, sym, ap, ◌∙◌, Option, none, some, Option-cases, Bool, true, false, Bool-cases,
  inl, inr, ◌⊎◌, ==_iff, ==_ne, ◌==◌, string_eq, if◌then◌else◌, List, [], ◌∷◌, ◌++◌, map, keep,
  arith, is_empty, Result, ok, err, Result-cases, Yields, Yields-bind,
}
use git_branchless.Prelude.Map.{lookup, lookup-insert, lookup-remove}
use git_branchless.Oid.{NonZeroOid, MaybeZeroOid, non_zero, OidText}
use git_branchless.EventLog.{
  ReferenceName, EventTransactionId, Event, rewrite_event, ref_update_event, commit_event,
  obsolete_event, unobsolete_event, working_copy_snapshot,
}
use git_branchless.Replay.{EventCursor, EventReplayer}
use git_branchless.Replay.Cursor.{get_events_since_cursor}
use git_branchless.Undo.{
  inverse_event, is_undone, UndoCheckoutTarget, Extracted, checkout, kept, extract, extract_from,
  UndoResult, applied, failed, nothing_to_undo, aborted, UndoState, UndoRepo, accepted,
  delete_found, apply_undo, apply_all, inverse_events, extract_checkout_target, undo_events,
}

-- where a reference is after an undoing event: the deletion of nothing does nothing
abbrev pub undo_move : ReferenceName → Option NonZeroOid → Event → Option NonZeroOid
undo_move name at (ref_update_event _ _ moved MaybeZeroOid.zero MaybeZeroOid.zero _) = at
undo_move name at (ref_update_event _ _ moved (non_zero _) MaybeZeroOid.zero _) =
    if moved == name then none else at
undo_move name at (ref_update_event _ _ moved _ (non_zero oid) _) =
    if moved == name then some oid else at
undo_move name at _ = at

unfoldable pub undo_from : ReferenceName → Option NonZeroOid → List Event → Option NonZeroOid
undo_from name at [] = at
undo_from name at (e ∷ es) = undo_from name (undo_move name at e) es

-- what holds of the new state, if an event is applied
abbrev pub Done : {E : Type 0} → (UndoState → Type 0) → Result (UndoState × E) UndoState → Type 0
Done P r = Yields (λ _. Unit) P r

pub accepted-Done :
    {E : Type 0} (P : UndoState → Type 0) (answer : Result E Unit) (s s' : UndoState)
    → P s'
    → Done P (accepted answer s s')
accepted-Done P (ok _) s s' h = h
accepted-Done P (err e) s s' h = tt

module _ {E : Type 0} (git : OidText) (repo : UndoRepo E) where
  lookup-delete_found :
      (s : UndoState) (moved name : ReferenceName)
      → Done
          (λ s'. lookup name s'.refs ≡ (if moved == name then none else lookup name s.refs))
          (delete_found git repo s moved (lookup moved s.refs))
  lookup-delete_found s moved name = elim (Option-cases (lookup moved s.refs)) [
    | inl absent ↦ elim (Bool-cases (moved == name)) [
      | inl same ↦ rw (absent, same) (rw ((==_iff moved name).0 same) at absent)
      | inr other ↦ rw (absent, other)
    ]
    | inr (oid, there) ↦
        rw there (accepted-Done _ (repo.delete s.refs moved) s _ (lookup-remove moved name s.refs))
  ]

  lookup-apply_undo :
      (s : UndoState) (e : Event) (name : ReferenceName)
      → Done
          (λ s'. lookup name s'.refs ≡ undo_move name (lookup name s.refs) e)
          (apply_undo git repo s e)
  unfolding apply_undo
  lookup-apply_undo s (ref_update_event _ _ moved MaybeZeroOid.zero MaybeZeroOid.zero _) name = refl
  lookup-apply_undo s (ref_update_event _ _ moved (non_zero _) MaybeZeroOid.zero _) name =
      elim (Result-cases (repo.find_reference s.refs moved)) [
        | inl (_, found) ↦ rw found (lookup-delete_found s moved name)
        | inr (e, unknown) ↦ rw unknown tt
      ]
  lookup-apply_undo s (ref_update_event _ _ moved MaybeZeroOid.zero (non_zero new) _) name =
      accepted-Done _ (repo.create_reference s.refs moved new) s _
        (lookup-insert moved name new s.refs)
  lookup-apply_undo s (ref_update_event _ _ moved (non_zero _) (non_zero new) _) name =
      accepted-Done _ (repo.create_reference s.refs moved new) s _
        (lookup-insert moved name new s.refs)
  lookup-apply_undo s (working_copy_snapshot _ _ _ _ _) name = refl
  lookup-apply_undo s (commit_event t tx o) name =
      accepted-Done _ (repo.insert_event s.db (commit_event t tx o)) s _ refl
  lookup-apply_undo s (obsolete_event t tx o) name =
      accepted-Done _ (repo.insert_event s.db (obsolete_event t tx o)) s _ refl
  lookup-apply_undo s (unobsolete_event t tx o) name =
      accepted-Done _ (repo.insert_event s.db (unobsolete_event t tx o)) s _ refl
  lookup-apply_undo s (rewrite_event t tx old new) name =
      accepted-Done _ (repo.insert_event s.db (rewrite_event t tx old new)) s _ refl

  pub lookup-apply_all :
      (s : UndoState) (es : List Event) (name : ReferenceName)
      → Done
          (λ s'. lookup name s'.refs ≡ undo_from name (lookup name s.refs) es)
          (apply_all git repo s es)
  unfolding apply_all undo_from
  lookup-apply_all s [] name = refl
  lookup-apply_all s (e ∷ es) name =
      Yields-bind (λ _. Unit) _ _ (apply_undo git repo s e) (λ s'. apply_all git repo s' es)
        (lookup-apply_undo s e name) λ s' moved. rw (← moved) (lookup-apply_all s' es name)

pub undo_from-append :
    (name : ReferenceName) (at : Option NonZeroOid) (es ds : List Event)
    → undo_from name at (es ++ ds) ≡ undo_from name (undo_from name at es) ds
unfolding undo_from
undo_from-append name at [] ds = refl
undo_from-append name at (e ∷ es) ds = undo_from-append name (undo_move name at e) es ds

-- the events that are not taken for the checkout
abbrev pub is_kept : Extracted → Bool
is_kept (checkout _) = false
is_kept kept = true

Extracted-cases : (x : Extracted) → ((t : UndoCheckoutTarget) × (x ≡ checkout t)) ⊎ (x ≡ kept)
Extracted-cases (checkout t) = inl (t, refl)
Extracted-cases kept = inr refl

pub extract_from_lem :
    (target : Option UndoCheckoutTarget) (new_events es : List Event)
    → (extract_from target new_events es).1 ≡ new_events ++ keep (λ e. is_kept (extract e)) es
unfolding extract_from
extract_from_lem target new_events [] = rw append-nil
extract_from_lem target new_events (e ∷ es) = elim (Extracted-cases (extract e)) [
  | inl (t, taken) ↦ rw (taken, extract_from) (extract_from_lem (some t) new_events es)
  | inr stays ↦
      rw (stays, extract_from)
        (extract_from_lem target (new_events ++ e ∷ []) es ∙ append_assoc new_events (e ∷ []) _)
]

module _ (name : ReferenceName) (not_head : name ≢ "HEAD") where
  head_elsewhere : (moved : ReferenceName) → (moved == "HEAD") ≡ true → (moved == name) ≡ false
  head_elsewhere moved h = ==_ne moved name (λ e. not_head (sym e ∙ (==_iff moved "HEAD").0 h))

  undo_move-extracted :
      (at : Option NonZeroOid) (e : Event) → is_kept (extract e) ≡ false → undo_move name at e ≡ at
  unfolding extract
  undo_move-extracted at (ref_update_event _ _ moved MaybeZeroOid.zero (non_zero new) _) h =
      elim (Bool-cases (moved == "HEAD")) [
        | inl head ↦ rw (head_elsewhere moved head)
        | inr other ↦ absurd (ground arith)
      ]
  undo_move-extracted at (ref_update_event _ _ moved (non_zero _) (non_zero new) _) h =
      elim (Bool-cases (moved == "HEAD")) [
        | inl head ↦ rw (head_elsewhere moved head)
        | inr other ↦ absurd (ground arith)
      ]
  undo_move-extracted at (ref_update_event _ _ _ MaybeZeroOid.zero MaybeZeroOid.zero _) h = cc
  undo_move-extracted at (ref_update_event _ _ _ (non_zero _) MaybeZeroOid.zero _) h = cc
  undo_move-extracted at (working_copy_snapshot _ _ _ _ _) h = refl
  undo_move-extracted at (commit_event _ _ _) h = refl
  undo_move-extracted at (obsolete_event _ _ _) h = refl
  undo_move-extracted at (unobsolete_event _ _ _) h = refl
  undo_move-extracted at (rewrite_event _ _ _ _) h = refl

  undo_move-not_undone :
      (now : ℕ) (tx : EventTransactionId) (at : Option NonZeroOid) (e : Event)
      → is_undone e ≡ false
      → undo_move name at (inverse_event now tx e) ≡ at
  unfolding is_undone inverse_event
  undo_move-not_undone now tx at (ref_update_event _ _ moved MaybeZeroOid.zero MaybeZeroOid.zero _)
        h =
      refl
  undo_move-not_undone now tx at (ref_update_event _ _ moved MaybeZeroOid.zero (non_zero new) _) h =
      elim (Bool-cases (moved == "HEAD")) [
        | inl head ↦ rw (head_elsewhere moved head)
        | inr other ↦ absurd (ground arith)
      ]
  undo_move-not_undone now tx at (ref_update_event _ _ moved (non_zero _) new _) h = cc
  undo_move-not_undone now tx at (working_copy_snapshot _ _ _ _ _) h = refl
  undo_move-not_undone now tx at (commit_event _ _ _) h = refl
  undo_move-not_undone now tx at (obsolete_event _ _ _) h = refl
  undo_move-not_undone now tx at (unobsolete_event _ _ _) h = refl
  undo_move-not_undone now tx at (rewrite_event _ _ _ _) h = refl

  pub undo_from-kept :
      (at : Option NonZeroOid) (es : List Event)
      → undo_from name at (keep (λ e. is_kept (extract e)) es) ≡ undo_from name at es
  unfolding undo_from
  undo_from-kept at [] = refl
  undo_from-kept at (e ∷ es) = elim (Bool-cases (is_kept (extract e))) [
    | inl stays ↦ rw stays (undo_from-kept (undo_move name at e) es)
    | inr taken ↦ rw (taken, undo_move-extracted at e taken) (undo_from-kept at es)
  ]

  pub undo_from-undone :
      (now : ℕ) (tx : EventTransactionId) (at : Option NonZeroOid) (es : List Event)
      → undo_from name at (map (inverse_event now tx) (keep is_undone es))
        ≡ undo_from name at (map (inverse_event now tx) es)
  unfolding undo_from
  undo_from-undone now tx at [] = refl
  undo_from-undone now tx at (e ∷ es) = elim (Bool-cases (is_undone e)) [
    | inl stays ↦ rw stays (undo_from-undone now tx (undo_move name at (inverse_event now tx e)) es)
    | inr dropped ↦ rw dropped (
        undo_from-undone now tx at es
        ∙ ap (λ a. undo_from name a (map (inverse_event now tx) es))
            (sym (undo_move-not_undone now tx at e dropped)))
  ]

-- the state after an undo, `d` where nothing was done
abbrev state_of : {E : Type 0} → UndoState → UndoResult E → UndoState
state_of d (applied x _) = x
state_of d (failed x _) = x
state_of d nothing_to_undo = d
state_of d aborted = d

-- an undo that was applied has applied all its events
pub undo_events-applied :
    {E : Type 0} (git : OidText) (repo : UndoRepo E) (now : ℕ) (tx : EventTransactionId)
    (r : EventReplayer) (cursor : EventCursor) (s s' : UndoState)
    (target : Option UndoCheckoutTarget)
    → undo_events git repo now tx true r cursor s ≡ applied s' target
    → apply_all git repo s
        (extract_checkout_target (inverse_events now tx (get_events_since_cursor r cursor))).1
      ≡ ok s'
unfolding undo_events
undo_events-applied git repo now tx r cursor s s' target done =
    let events = inverse_events now tx (get_events_since_cursor r cursor) in
    let run = apply_all git repo s (extract_checkout_target events).1 in
    elim (Bool-cases (is_empty events)) [
      | inl nothing ↦ absurd (ground arith)
      | inr some_event ↦ elim (Result-cases run) [
        | inl (x, fine) ↦
            let same = ap (state_of s) (rw (some_event, fine, undo_events) at done) in
            fine ∙ ap ok same
        | inr (e, bad) ↦ absurd (cc (rw (some_event, bad, undo_events) at done))
      ]
    ]
