-- ===== src/Replay/Status/Observed.antt =====
-- eventlog.rs: the commits of `get_cursor_oids`.
use native.Mathlib.Nat.{sub-zero}
use git_branchless.Prelude.{
  ℕ, suc, ◌-◌, ◌≡◌, refl, ap, ◌∙◌, none, Bool, false, not, ◌||◌, Bool-cases, inl, inr, ◌==◌, ==_iff,
  List, [], ◌∷◌, ◌++◌, take, keep, any_of, is_empty, contains, ltb, arith,
}
use git_branchless.Prelude.Map.{Map, lookup, lookup_list, IsUnique, update_entry-IsUnique}
use git_branchless.Oid.{NonZeroOid, MaybeZeroOid, non_zero, oid_eq}
use git_branchless.EventLog.{
  ReferenceName, Event, rewrite_event, ref_update_event, commit_event, obsolete_event,
  unobsolete_event, working_copy_snapshot,
}
use git_branchless.Replay.{
  EventClassification, EventInfo, EventCursor, EventReplayer, new, push_info, push_maybe,
  record_commits, push_event, process_event, process_events, from_events,
}
use git_branchless.Replay.History.{infos, history_from, from_events-Inv, process_event-cases}
use git_branchless.Replay.Status.{observed_oids, get_cursor_oids}
use git_branchless.Replay.Status.Spec.{keep-history_from}
use git_branchless.Replay.Status.Latest.{mentions}

-- no commit has two histories
push_maybe-IsUnique :
    (oid : MaybeZeroOid) (n : ℕ) (e : Event) (c : EventClassification)
    (m : Map NonZeroOid (List EventInfo))
    → IsUnique m
    → IsUnique (push_maybe oid n e c m)
unfolding push_info
push_maybe-IsUnique MaybeZeroOid.zero n e c m h = h
push_maybe-IsUnique (non_zero oid) n e c m h = update_entry-IsUnique oid _ m h

record_commits-IsUnique :
    (n : ℕ) (e : Event) (m : Map NonZeroOid (List EventInfo))
    → IsUnique m
    → IsUnique (record_commits n e m)
unfolding record_commits
record_commits-IsUnique n (rewrite_event t tx old new) m h =
    push_maybe-IsUnique new n _ _ _ (push_maybe-IsUnique old n _ _ m h)
record_commits-IsUnique n (ref_update_event _ _ _ _ _ _) m h = h
record_commits-IsUnique n (commit_event t tx oid) m h = push_maybe-IsUnique (non_zero oid) n _ _ m h
record_commits-IsUnique n (obsolete_event t tx oid) m h =
    push_maybe-IsUnique (non_zero oid) n _ _ m h
record_commits-IsUnique n (unobsolete_event t tx oid) m h =
    push_maybe-IsUnique (non_zero oid) n _ _ m h
record_commits-IsUnique n (working_copy_snapshot _ _ _ _ _) m h = h

process_events-IsUnique :
    (r : EventReplayer) (es : List Event)
    → IsUnique r.commit_history
    → IsUnique (process_events r es).commit_history
unfolding process_events push_event
process_events-IsUnique r [] h = h
process_events-IsUnique r (e ∷ es) h =
    process_events-IsUnique (process_event r e) es (elim (process_event-cases r e) [
      | inl dropped ↦ rw dropped h
      | inr (e', fixed, pushed) ↦
          rw pushed (record_commits-IsUnique r.id_counter e' r.commit_history h)
    ])

module _ (r : EventReplayer) (cursor : EventCursor) where
  abbrev is_before : EventInfo → Bool
  is_before info = ltb info.id cursor.event_id

  not_observed :
      (m : Map NonZeroOid (List EventInfo)) (o : NonZeroOid)
      → lookup o m ≡ none
      → contains (observed_oids r cursor m) o ≡ false
  unfolding observed_oids lookup
  not_observed [] o h = refl
  not_observed ((oid, history) ∷ m) o h = elim (Bool-cases (oid == o)) [
    | inl same ↦ absurd (ground arith)
    | inr other ↦ elim (Bool-cases (any_of is_before history)) [
      | inl seen ↦ rw (seen, other) (not_observed m o (rw other at h))
      | inr unseen ↦ rw unseen (not_observed m o (rw other at h))
    ]
  ]

  contains-observed_oids :
      (m : Map NonZeroOid (List EventInfo)) (o : NonZeroOid)
      → IsUnique m
      → contains (observed_oids r cursor m) o ≡ any_of is_before (lookup_list o m)
  unfolding observed_oids lookup
  contains-observed_oids [] o h = refl
  contains-observed_oids ((oid, history) ∷ m) o h = elim (Bool-cases (oid == o)) [
    | inl same ↦
        let missing = not_observed m o (rw (← (==_iff oid o).0 same) (h.0)) in
        elim (Bool-cases (any_of is_before history)) [
          | inl seen ↦
              let this : lookup_list o ((oid, history) ∷ m) ≡ history =
                rw (lookup_list, lookup, same) in
              rw (this, seen, same) refl
          | inr unseen ↦
              let this : lookup_list o ((oid, history) ∷ m) ≡ history =
                rw (lookup_list, lookup, same) in
              rw (this, unseen, missing) refl
        ]
    | inr other ↦ elim (Bool-cases (any_of is_before history)) [
      | inl seen ↦
          let rest : lookup_list o ((oid, history) ∷ m) ≡ lookup_list o m =
            rw (lookup_list, lookup, other) in
          rw (rest, seen, other) (contains-observed_oids m o h.1)
      | inr unseen ↦
          let rest : lookup_list o ((oid, history) ∷ m) ≡ lookup_list o m =
            rw (lookup_list, lookup, other) in
          rw (rest, unseen) (contains-observed_oids m o h.1)
    ]
  ]

any_of-keep : {A : Type 0} (p : A → Bool) (xs : List A) → any_of p xs ≡ not (is_empty (keep p xs))
any_of-keep p [] = refl
any_of-keep p (x ∷ xs) = elim (Bool-cases (p x)) [ inl h ↦ rw h | inr h ↦ rw h (any_of-keep p xs) ]

is_empty-append :
    {A : Type 0} (xs ys : List A)
    → not (is_empty (xs ++ ys)) ≡ (not (is_empty xs) || not (is_empty ys))
is_empty-append [] ys = refl
is_empty-append (x ∷ xs) ys = refl

is_empty-infos : (n : ℕ) (e : Event) (o : NonZeroOid) → not (is_empty (infos n e o)) ≡ mentions e o
unfolding mentions
is_empty-infos n (rewrite_event t tx MaybeZeroOid.zero MaybeZeroOid.zero) o = refl
is_empty-infos n (rewrite_event t tx MaybeZeroOid.zero (non_zero b)) o = ground arith
is_empty-infos n (rewrite_event t tx (non_zero a) MaybeZeroOid.zero) o = ground arith
is_empty-infos n (rewrite_event t tx (non_zero a) (non_zero b)) o = ground arith
is_empty-infos n (ref_update_event _ _ _ _ _ _) o = refl
is_empty-infos n (commit_event _ _ oid) o = ground arith
is_empty-infos n (obsolete_event _ _ oid) o = ground arith
is_empty-infos n (unobsolete_event _ _ oid) o = ground arith
is_empty-infos n (working_copy_snapshot _ _ _ _ _) o = refl

is_empty-history_from :
    (n : ℕ) (es : List Event) (o : NonZeroOid)
    → not (is_empty (history_from n es o)) ≡ any_of (λ e. mentions e o) es
unfolding history_from
is_empty-history_from n [] o = refl
is_empty-history_from n (e ∷ es) o = rw (
  is_empty-append (infos n e o) (history_from (suc n) es o),
  is_empty-infos n e o,
  is_empty-history_from (suc n) es o,
)

module _ (main : ReferenceName) (es : List Event) (cursor : EventCursor) (o : NonZeroOid) where
  -- The commits observed at a cursor are those that some event before the cursor mentions.
  pub get_cursor_oids_lem :
      contains (get_cursor_oids (from_events main es) cursor) o
      ≡ any_of (λ e. mentions e o) (take cursor.event_id (from_events main es).events)
  unfolding get_cursor_oids from_events new
  get_cursor_oids_lem =
      let r = from_events main es in
      contains-observed_oids r cursor r.commit_history o (process_events-IsUnique (new main) es tt)
      ∙ ap (any_of (is_before r cursor)) ((from_events-Inv main es).histories o)
      ∙ any_of-keep (is_before r cursor) (history_from 0 r.events o)
      ∙ ap (λ l. not (is_empty l)) (keep-history_from cursor.event_id 0 r.events o)
      ∙ is_empty-history_from 0 (take (cursor.event_id - 0) r.events) o
      ∙ ap (λ k. any_of (λ e. mentions e o) (take k r.events)) (sub-zero cursor.event_id)
