-- ===== src/Replay/Status/Spec.antt =====
-- eventlog.rs: the status of a commit at a cursor, and what the events say of it.
use native.Mathlib.Nat.{sub-zero}
use git_branchless.Prelude.{
  ℕ, zero, suc, ◌-◌, ◌≡◌, refl, sym, ◌∙◌, Option, none, some, Bool, false, Bool-cases, inl, inr,
  ◌==◌, if◌then◌else◌, List, [], ◌∷◌, ◌++◌, take, keep, last?, ltb, arith,
}
use git_branchless.Prelude.Map.{lookup}
use git_branchless.Oid.{NonZeroOid, MaybeZeroOid, non_zero, oid_eq}
use git_branchless.EventLog.{
  ReferenceName, Event, rewrite_event, ref_update_event, commit_event, obsolete_event,
  unobsolete_event, working_copy_snapshot,
}
use git_branchless.Replay.{
  show, hide, CommitActivityStatus, active, inactive, obsolete, EventInfo, EventCursor,
  EventReplayer, from_events,
}
use git_branchless.Replay.History.{infos, history_from, from_events-Inv}
use git_branchless.Replay.Status.{get_cursor_commit_history, get_cursor_commit_activity_status}

-- What an event says of a commit, whatever was known before: a rewrite makes the old commit
-- obsolete and the new one active, and the latter counts where both are one.
abbrev pub is_oid : MaybeZeroOid → NonZeroOid → Bool
is_oid MaybeZeroOid.zero o = false
is_oid (non_zero oid) o = oid == o

abbrev pub observe : NonZeroOid → CommitActivityStatus → Event → CommitActivityStatus
observe o s (rewrite_event _ _ old new) =
    if is_oid new o then active else if is_oid old o then obsolete else s
observe o s (ref_update_event _ _ _ _ _ _) = s
observe o s (commit_event _ _ oid) = if oid == o then active else s
observe o s (obsolete_event _ _ oid) = if oid == o then obsolete else s
observe o s (unobsolete_event _ _ oid) = if oid == o then active else s
observe o s (working_copy_snapshot _ _ _ _ _) = s

unfoldable pub status_from : CommitActivityStatus → List Event → NonZeroOid → CommitActivityStatus
status_from s [] o = s
status_from s (e ∷ es) o = status_from (observe o s e) es o

pub status_from-append :
    (s : CommitActivityStatus) (es ds : List Event) (o : NonZeroOid)
    → status_from s (es ++ ds) o ≡ status_from (status_from s es o) ds o
unfolding status_from
status_from-append s [] ds o = refl
status_from-append s (e ∷ es) ds o = status_from-append (observe o s e) es ds o

-- the status that a history ends in, `s` where it is empty
abbrev status_of : CommitActivityStatus → List EventInfo → CommitActivityStatus
status_of s [] = s
status_of s (info ∷ infos) =
    status_of (elim info.event_classification [ show ↦ active | hide ↦ obsolete ]) infos

status_of-append :
    (s : CommitActivityStatus) (xs ys : List EventInfo)
    → status_of s (xs ++ ys) ≡ status_of (status_of s xs) ys
status_of-append s [] ys = refl
status_of-append s (x ∷ xs) ys = status_of-append _ xs ys

status_of-infos :
    (o : NonZeroOid) (s : CommitActivityStatus) (n : ℕ) (e : Event)
    → status_of s (infos n e o) ≡ observe o s e
status_of-infos o s n (rewrite_event t tx MaybeZeroOid.zero MaybeZeroOid.zero) = refl
status_of-infos o s n (rewrite_event t tx MaybeZeroOid.zero (non_zero b)) = ground arith
status_of-infos o s n (rewrite_event t tx (non_zero a) MaybeZeroOid.zero) = ground arith
status_of-infos o s n (rewrite_event t tx (non_zero a) (non_zero b)) = ground arith
status_of-infos o s n (ref_update_event _ _ _ _ _ _) = refl
status_of-infos o s n (commit_event _ _ oid) = ground arith
status_of-infos o s n (obsolete_event _ _ oid) = ground arith
status_of-infos o s n (unobsolete_event _ _ oid) = ground arith
status_of-infos o s n (working_copy_snapshot _ _ _ _ _) = refl

status_of-history_from :
    (s : CommitActivityStatus) (n : ℕ) (es : List Event) (o : NonZeroOid)
    → status_of s (history_from n es o) ≡ status_from s es o
unfolding history_from status_from
status_of-history_from s n [] o = refl
status_of-history_from s n (e ∷ es) o =
    rw (status_of-append s (infos n e o) (history_from (suc n) es o), status_of-infos o s n e)
      (status_of-history_from (observe o s e) (suc n) es o)

take-nil {ℓ} : {A : Type ℓ} (n : ℕ) → take {A = A} n [] ≡ []
take-nil zero = refl
take-nil (suc n) = refl

status_of-last :
    (s : CommitActivityStatus) (xs : List EventInfo)
    → status_of s xs ≡ elim (last? xs) [
      | none ↦ s
      | some info ↦ elim info.event_classification [ show ↦ active | hide ↦ obsolete ]
    ]
status_of-last s [] = refl
status_of-last s (x ∷ xs) =
    ground
      (arith, status_of-last (elim x.event_classification [ show ↦ active | hide ↦ obsolete ]) xs)

-- the entries of a history below a cursor are the history of the events below it
keep-append :
    {A : Type 0} (p : A → Bool) (xs ys : List A) → keep p (xs ++ ys) ≡ keep p xs ++ keep p ys
keep-append p [] ys = refl
keep-append p (x ∷ xs) ys = elim (Bool-cases (p x)) [
  | inl h ↦ rw (h, keep-append p xs ys)
  | inr h ↦ rw (h, keep-append p xs ys)
]

keep-infos :
    (c n : ℕ) (e : Event) (o : NonZeroOid)
    → keep (λ (i : EventInfo). ltb i.id c) (infos n e o) ≡ (if ltb n c then infos n e o else [])
keep-infos c n (rewrite_event t tx MaybeZeroOid.zero MaybeZeroOid.zero) o = ground arith
keep-infos c n (rewrite_event t tx MaybeZeroOid.zero (non_zero b)) o = ground arith
keep-infos c n (rewrite_event t tx (non_zero a) MaybeZeroOid.zero) o = ground arith
keep-infos c n (rewrite_event t tx (non_zero a) (non_zero b)) o = ground arith
keep-infos c n (ref_update_event _ _ _ _ _ _) o = ground arith
keep-infos c n (commit_event _ _ oid) o = ground arith
keep-infos c n (obsolete_event _ _ oid) o = ground arith
keep-infos c n (unobsolete_event _ _ oid) o = ground arith
keep-infos c n (working_copy_snapshot _ _ _ _ _) o = ground arith

pub keep-history_from :
    (c n : ℕ) (es : List Event) (o : NonZeroOid)
    → keep (λ (i : EventInfo). ltb i.id c) (history_from n es o)
      ≡ history_from n (take (c - n) es) o
unfolding history_from
keep-history_from c n [] o = rw take-nil
keep-history_from c n (e ∷ es) o = elim (Bool-cases (ltb n c)) [
  | inl below ↦
      let room : c - n ≡ suc (c - suc n) = ground arith in
      rw (
        keep-append _ (infos n e o),
        keep-infos c n e o,
        below,
        room,
        keep-history_from c (suc n) es o,
      )
  | inr above ↦
      let full : c - n ≡ 0 = ground arith in
      let full' : c - suc n ≡ 0 = ground arith in
      rw (
        keep-append _ (infos n e o),
        keep-infos c n e o,
        above,
        full,
        keep-history_from c (suc n) es o,
        full',
      )
]

keep_or_empty :
    {A : Type 0} (p : A → Bool) (x : Option (List A))
    → elim x [ none ↦ [] | some xs ↦ keep p xs ] ≡ keep p (elim x [ none ↦ [] | some xs ↦ xs ])
keep_or_empty p none = refl
keep_or_empty p (some xs) = refl

module _ (main : ReferenceName) (es : List Event) (cursor : EventCursor) (o : NonZeroOid) where
  abbrev replayer : EventReplayer
  replayer = from_events main es

  pub history_at_cursor :
      get_cursor_commit_history replayer cursor o
      ≡ history_from 0 (take cursor.event_id replayer.events) o
  unfolding get_cursor_commit_history
  history_at_cursor =
      keep_or_empty (λ (i : EventInfo). ltb i.id cursor.event_id) (lookup o replayer.commit_history)
      ∙ rw ((from_events-Inv main es).histories o)
          (rw (keep-history_from cursor.event_id 0 replayer.events o, sub-zero))

  -- At a cursor, a commit has the status that the events before the cursor give it, one after the
  -- other: a commit, a rewrite into it or an un-obsoletion makes it active, a rewrite of it or an
  -- obsoletion makes it obsolete, and with none of these it is inactive.
  pub activity_status_lem :
      get_cursor_commit_activity_status replayer cursor o
      ≡ status_from inactive (take cursor.event_id replayer.events) o
  unfolding get_cursor_commit_activity_status
  activity_status_lem =
      rw (get_cursor_commit_activity_status, history_at_cursor)
        (sym (status_of-last inactive (history_from 0 (take cursor.event_id replayer.events) o))
          ∙ status_of-history_from inactive 0 (take cursor.event_id replayer.events) o)
