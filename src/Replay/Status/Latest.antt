-- ===== src/Replay/Status/Latest.antt =====
-- eventlog.rs: the latest event of a commit at a cursor, by its position in the list of events.
use git_branchless.Prelude.{
  ℕ, zero, suc, ◌+◌, ◌-◌, ◌<◌, ◌≤◌, ◌≡◌, refl, Option, none, some, Option-cases, Bool, true, false,
  ◌||◌, Bool-cases, inl, inr, ◌==◌, if◌then◌else◌, List, [], ◌∷◌, ◌++◌, length, take, get_elem?,
  last?, arith,
}
use git_branchless.Oid.{NonZeroOid, MaybeZeroOid, non_zero, oid_eq}
use git_branchless.EventLog.{
  ReferenceName, Event, rewrite_event, ref_update_event, commit_event, obsolete_event,
  unobsolete_event, working_copy_snapshot,
}
use git_branchless.Replay.{EventInfo, EventCursor, from_events}
use git_branchless.Replay.History.{infos, history_from}
use git_branchless.Replay.Status.{get_cursor_commit_latest_event}
use git_branchless.Replay.Status.Spec.{is_oid, history_at_cursor}

-- the event is in the history of the commit
unfoldable pub mentions : Event → NonZeroOid → Bool
mentions (rewrite_event _ _ old new) o = is_oid old o || is_oid new o
mentions (ref_update_event _ _ _ _ _ _) o = false
mentions (commit_event _ _ oid) o = oid == o
mentions (obsolete_event _ _ oid) o = oid == o
mentions (unobsolete_event _ _ oid) o = oid == o
mentions (working_copy_snapshot _ _ _ _ _) o = false

-- the last event that mentions a commit, with its number, the first event having the number `n`
unfoldable pub last_mention : ℕ → List Event → NonZeroOid → Option (ℕ × Event)
last_mention n [] o = none
last_mention n (e ∷ es) o = elim (last_mention (suc n) es o) [
  | some found ↦ some found
  | none ↦ if mentions e o then some (n, e) else none
]

abbrev place : Option EventInfo → Option (ℕ × Event)
place none = none
place (some info) = some (info.id, info.event)

last?-append-or :
    {A : Type 0} (xs ys : List A)
    → last? (xs ++ ys) ≡ elim (last? ys) [ none ↦ last? xs | some y ↦ some y ]
last?-append-or [] ys = ground arith
last?-append-or (x ∷ xs) ys = ground (arith, last?-append-or xs ys)

place-infos :
    (n : ℕ) (e : Event) (o : NonZeroOid)
    → place (last? (infos n e o)) ≡ (if mentions e o then some (n, e) else none)
unfolding mentions
place-infos n (rewrite_event t tx MaybeZeroOid.zero MaybeZeroOid.zero) o = refl
place-infos n (rewrite_event t tx MaybeZeroOid.zero (non_zero b)) o = ground arith
place-infos n (rewrite_event t tx (non_zero a) MaybeZeroOid.zero) o = ground arith
place-infos n (rewrite_event t tx (non_zero a) (non_zero b)) o = ground arith
place-infos n (ref_update_event _ _ _ _ _ _) o = refl
place-infos n (commit_event _ _ oid) o = ground arith
place-infos n (obsolete_event _ _ oid) o = ground arith
place-infos n (unobsolete_event _ _ oid) o = ground arith
place-infos n (working_copy_snapshot _ _ _ _ _) o = refl

place-history_from :
    (n : ℕ) (es : List Event) (o : NonZeroOid)
    → place (last? (history_from n es o)) ≡ last_mention n es o
unfolding history_from last_mention
place-history_from n [] o = refl
place-history_from n (e ∷ es) o = ground (
  arith,
  last?-append-or (infos n e o) (history_from (suc n) es o),
  place-infos n e o,
  place-history_from (suc n) es o,
)

-- the last mention lies in the list, and mentions the commit
pub last_mention_at :
    (n : ℕ) (es : List Event) (o : NonZeroOid) (k : ℕ) (e : Event)
    → last_mention n es o ≡ some (k, e)
    → (n ≤ k) × (k < n + length es) × (get_elem? es (k - n) ≡ some e) × (mentions e o ≡ true)
unfolding last_mention
last_mention_at n [] o k e h = cc
last_mention_at n (d ∷ es) o k e h = elim (Option-cases (last_mention (suc n) es o)) [
  | inl no_more ↦ elim (Bool-cases (mentions d o)) [
    | inl mentioned ↦
        let at_n : k ≡ n = ground arith in
        let this : d ≡ e = ground arith in
        let first : k - n ≡ 0 = omega arith in
        (omega arith, omega arith, rw (first, this), rw (← this) mentioned)
    | inr silent ↦ absurd (ground arith)
  ]
  | inr ((j, f), found) ↦
      let later : last_mention (suc n) es o ≡ some (k, e) = ground arith in
      let (low, high, there, mentioned) = last_mention_at (suc n) es o k e later in
      let next : k - n ≡ suc (k - suc n) = omega arith in
      (omega arith, omega arith, rw next there, mentioned)
]

-- an event that mentions the commit is not after the last mention
pub last_mention_max :
    (n : ℕ) (es : List Event) (o : NonZeroOid) (j : ℕ) (d : Event)
    → get_elem? es j ≡ some d
    → mentions d o ≡ true
    → (k : ℕ) × (e : Event) × (last_mention n es o ≡ some (k, e)) × (n + j ≤ k)
unfolding last_mention
last_mention_max n [] o j d h m = cc
last_mention_max n (e ∷ es) o zero d h m = elim (Option-cases (last_mention (suc n) es o)) [
  | inl no_more ↦
      let mentioned : mentions e o ≡ true = ground arith in
      (n, e, rw (no_more, last_mention, mentioned), omega arith)
  | inr ((k, f), found) ↦
      let (low, _, _, _) = last_mention_at (suc n) es o k f found in
      (k, f, rw (found, last_mention), omega arith)
]
last_mention_max n (e ∷ es) o (suc j) d h m =
    let (k, f, found, later) = last_mention_max (suc n) es o j d h m in
    (k, f, rw (found, last_mention), omega arith)

abbrev pub event_of : Option (ℕ × Event) → Option Event
event_of none = none
event_of (some (_, e)) = some e

event_of-place :
    (info : Option EventInfo)
    → elim info [ none ↦ none | some i ↦ some i.event ] ≡ event_of (place info)
event_of-place none = refl
event_of-place (some info) = refl

module _ (main : ReferenceName) (es : List Event) (cursor : EventCursor) (o : NonZeroOid) where
  -- At a cursor, the latest event of a commit is the last of the events before the cursor that
  -- mentions the commit.
  pub latest_event_lem :
      get_cursor_commit_latest_event (from_events main es) cursor o
      ≡ event_of (last_mention 0 (take cursor.event_id (from_events main es).events) o)
  unfolding get_cursor_commit_latest_event
  latest_event_lem =
      let before = take cursor.event_id (from_events main es).events in
      rw
        (
          get_cursor_commit_latest_event,
          history_at_cursor main es cursor o,
          ← place-history_from 0 before o,
        )
        (event_of-place (last? (history_from 0 before o)))
