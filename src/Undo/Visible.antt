-- ===== src/Undo/Visible.antt =====
-- git-branchless-undo/src/lib.rs: what undoing does to the visibility of commits.
use mathlib.Core.List.{reverse, reverse-cons, map-append}
use git_branchless.Prelude.{
  ℕ, ◌≡◌, refl, sym, ap, ◌∙◌, Bool, true, false, Bool-cases, inl, inr, ◌==◌, List, [], ◌∷◌, ◌++◌,
  map, keep,
}
use git_branchless.Oid.{NonZeroOid, oid_eq}
use git_branchless.EventLog.{
  EventTransactionId, Event, rewrite_event, ref_update_event, commit_event, obsolete_event,
  unobsolete_event, working_copy_snapshot,
}
use git_branchless.Replay.{CommitActivityStatus, active, inactive, obsolete}
use git_branchless.Replay.Status.Spec.{is_oid, observe, status_from, status_from-append}
use git_branchless.Undo.{inverse_event, is_undone, inverse_events}

abbrev pub is_active : CommitActivityStatus → Bool
is_active active = true
is_active inactive = false
is_active obsolete = false

-- An event that says something of the commit changes whether it is active.
abbrev pub Toggles : NonZeroOid → CommitActivityStatus → Event → Type 0
Toggles o s (rewrite_event _ _ old new) =
    (is_oid old o ≡ true → is_active s ≡ true) × (is_oid new o ≡ true → is_active s ≡ false)
Toggles o s (ref_update_event _ _ _ _ _ _) = Unit
Toggles o s (commit_event _ _ oid) = (oid == o) ≡ true → is_active s ≡ false
Toggles o s (obsolete_event _ _ oid) = (oid == o) ≡ true → is_active s ≡ true
Toggles o s (unobsolete_event _ _ oid) = (oid == o) ≡ true → is_active s ≡ false
Toggles o s (working_copy_snapshot _ _ _ _ _) = Unit

abbrev pub AllToggle : NonZeroOid → CommitActivityStatus → List Event → Type 0
AllToggle o s [] = Unit
AllToggle o s (e ∷ es) = Toggles o s e × AllToggle o (observe o s e) es

module _ (now : ℕ) (tx : EventTransactionId) (o : NonZeroOid) where
  -- the inverse of an event that toggles a commit toggles it back
  observe-inverse :
      (s after : CommitActivityStatus) (e : Event)
      → Toggles o s e
      → is_active after ≡ is_active (observe o s e)
      → is_active (observe o after (inverse_event now tx e)) ≡ is_active s
  unfolding inverse_event
  observe-inverse s after (rewrite_event _ _ old new) h same = elim (Bool-cases (is_oid old o)) [
    | inl was ↦ elim (Bool-cases (is_oid new o)) [
      | inl becomes ↦ let a = h.0 was in let b = h.1 becomes in absurd (cc (a, b))
      | inr not_new ↦ let a = h.0 was in rw (was, a)
    ]
    | inr not_old ↦ elim (Bool-cases (is_oid new o)) [
      | inl becomes ↦ let b = h.1 becomes in rw (not_old, becomes, b)
      | inr not_new ↦ rw (not_old, not_new) (rw (not_old, not_new) at same)
    ]
  ]
  observe-inverse s after (ref_update_event _ _ _ _ _ _) h same = same
  observe-inverse s after (commit_event _ _ oid) h same = elim (Bool-cases (oid == o)) [
    | inl is_o ↦ rw (is_o, h is_o)
    | inr other ↦ rw other (rw other at same)
  ]
  observe-inverse s after (obsolete_event _ _ oid) h same = elim (Bool-cases (oid == o)) [
    | inl is_o ↦ rw (is_o, h is_o)
    | inr other ↦ rw other (rw other at same)
  ]
  observe-inverse s after (unobsolete_event _ _ oid) h same = elim (Bool-cases (oid == o)) [
    | inl is_o ↦ rw (is_o, h is_o)
    | inr other ↦ rw other (rw other at same)
  ]
  observe-inverse s after (working_copy_snapshot _ _ _ _ _) h same = same

  -- the events that `undo_events` filters out say nothing of commits
  observe-not_undone :
      (s : CommitActivityStatus) (e : Event)
      → is_undone e ≡ false
      → observe o s (inverse_event now tx e) ≡ s
  unfolding is_undone inverse_event
  observe-not_undone s (rewrite_event _ _ old new) h = cc
  observe-not_undone s (ref_update_event _ _ _ _ _ _) h = refl
  observe-not_undone s (commit_event _ _ oid) h = cc
  observe-not_undone s (obsolete_event _ _ oid) h = cc
  observe-not_undone s (unobsolete_event _ _ oid) h = cc
  observe-not_undone s (working_copy_snapshot _ _ _ _ _) h = refl

  status_from-undone :
      (s : CommitActivityStatus) (es : List Event)
      → status_from s (map (inverse_event now tx) (keep is_undone es)) o
        ≡ status_from s (map (inverse_event now tx) es) o
  unfolding status_from
  status_from-undone s [] = refl
  status_from-undone s (e ∷ es) = elim (Bool-cases (is_undone e)) [
    | inl stays ↦ rw stays (status_from-undone (observe o s (inverse_event now tx e)) es)
    | inr dropped ↦ rw dropped (
        status_from-undone s es
        ∙ ap (λ a. status_from a (map (inverse_event now tx) es) o)
            (sym (observe-not_undone s e dropped)))
  ]

  undo_all_toggles :
      (s : CommitActivityStatus) (es : List Event)
      → AllToggle o s es
      → is_active (status_from (status_from s es o) (map (inverse_event now tx) (reverse es)) o)
        ≡ is_active s
  unfolding status_from
  undo_all_toggles s [] h = refl
  undo_all_toggles s (e ∷ es) h =
      let inverse = inverse_event now tx in
      let after = status_from (observe o s e) es o in
      ap (λ l. is_active (status_from after (map inverse l) o)) (reverse-cons e es)
      ∙ ap (λ l. is_active (status_from after l o)) (map-append inverse (reverse es) (e ∷ []))
      ∙ ap is_active (status_from-append after (map inverse (reverse es)) (inverse e ∷ []) o)
      ∙ observe-inverse s (status_from after (map inverse (reverse es)) o) e h.0
          (undo_all_toggles (observe o s e) es h.1)

  -- After some events and the events that undo them, a commit is active exactly if it was before, if
  -- each of the events that concern the commit changes whether it is active.
  pub inverse_events-active :
      (s : CommitActivityStatus) (es : List Event)
      → AllToggle o s es
      → is_active (status_from s (es ++ inverse_events now tx es) o) ≡ is_active s
  unfolding inverse_events
  inverse_events-active s es h =
      ap is_active (status_from-append s es (inverse_events now tx es) o)
      ∙ ap is_active (status_from-undone (status_from s es o) (reverse es))
      ∙ undo_all_toggles s es h
