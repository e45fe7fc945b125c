-- ===== src/Hide/Undone.antt =====
-- git-branchless/src/commands/hide.rs and git-branchless-undo/src/lib.rs: what undoing a hiding does.
use mathlib.Core.List.{reverse, reverse-cons, map-append}
use git_branchless.Prelude.{
  ℕ, ◌≡◌, refl, sym, ap, ◌∙◌, Bool, true, false, ◌==◌, ◌||◌, if◌then◌else◌, List, [], ◌∷◌, ◌++◌,
  map, keep, contains,
}
use git_branchless.Oid.{NonZeroOid, oid_eq}
use git_branchless.EventLog.{
  ReferenceName, EventTransactionId, Event, obsolete_event, unobsolete_event,
}
use git_branchless.Replay.{CommitActivityStatus, active, obsolete}
use git_branchless.Hide.{hide_events, unhide_events}
use git_branchless.Hide.Status.{
  current_status, current_status-hide_events, current_status-unhide_events,
}
use git_branchless.Undo.{inverse_event, is_undone, inverse_events}

-- hiding a list of commits is hiding it in the reverse order, backwards
reverse-hide_events :
    (time : ℕ) (tx : EventTransactionId) (commits : List NonZeroOid)
    → reverse (hide_events time tx commits) ≡ hide_events time tx (reverse commits)
unfolding hide_events
reverse-hide_events time tx [] = refl
reverse-hide_events time tx (c ∷ commits) =
    let hide = λ (oid : NonZeroOid). obsolete_event time tx oid in
    reverse-cons (hide c) (map hide commits)
    ∙ ap (λ l. l ++ hide c ∷ []) (reverse-hide_events time tx commits)
    ∙ sym (map-append hide (reverse commits) (c ∷ []))
    ∙ ap (map hide) (sym (reverse-cons c commits))

inverse-hide_events :
    (time now : ℕ) (hiding tx : EventTransactionId) (commits : List NonZeroOid)
    → map (inverse_event now tx) (keep is_undone (hide_events time hiding commits))
      ≡ unhide_events now tx commits
unfolding hide_events unhide_events inverse_event is_undone
inverse-hide_events time now hiding tx [] = refl
inverse-hide_events time now hiding tx (c ∷ commits) =
    ap (λ l. unobsolete_event now tx c ∷ l) (inverse-hide_events time now hiding tx commits)

swap : (a b c : Bool) → (a || (b || c)) ≡ (b || (a || c))
swap true true c = refl
swap true false c = refl
swap false true c = refl
swap false false c = refl

contains-snoc :
    (xs : List NonZeroOid) (c o : NonZeroOid)
    → contains (xs ++ c ∷ []) o ≡ (c == o || contains xs o)
contains-snoc [] c o = refl
contains-snoc (x ∷ xs) c o = rw (contains-snoc xs c o) (swap (x == o) (c == o) (contains xs o))

contains-reverse :
    (commits : List NonZeroOid) (o : NonZeroOid) → contains (reverse commits) o ≡ contains commits o
contains-reverse [] o = refl
contains-reverse (c ∷ commits) o =
    ap (λ l. contains l o) (reverse-cons c commits)
    ∙ contains-snoc (reverse commits) c o
    ∙ ap (λ b. c == o || b) (contains-reverse commits o)

either_way :
    (shown hidden : Bool) (s : CommitActivityStatus)
    → shown ≡ hidden
    → (if shown then active else (if hidden then obsolete else s)) ≡ (if hidden then active else s)
either_way true true s same = refl
either_way false false s same = refl
either_way true false s same = cc
either_way false true s same = cc

-- Hiding commits after a log and undoing the hiding leaves every other commit as the log left it, and
-- the hidden ones active, whether they were active before or not.
pub current_status-inverse_events :
    (main : ReferenceName) (es : List Event) (time now : ℕ) (hiding tx : EventTransactionId)
    (commits : List NonZeroOid) (o : NonZeroOid)
    → let hides = hide_events time hiding commits in
      current_status main ((es ++ hides) ++ inverse_events now tx hides) o
      ≡ (if contains commits o then active else current_status main es o)
unfolding inverse_events
current_status-inverse_events main es time now hiding tx commits o =
    let hides = hide_events time hiding commits in
    ap (λ l. current_status main ((es ++ hides) ++ map (inverse_event now tx) (keep is_undone l)) o)
      (reverse-hide_events time hiding commits)
    ∙ ap (λ l. current_status main ((es ++ hides) ++ l) o)
        (inverse-hide_events time now hiding tx (reverse commits))
    ∙ current_status-unhide_events main (es ++ hides) now tx (reverse commits) o
    ∙ ap (λ s. if contains (reverse commits) o then active else s)
        (current_status-hide_events main es time hiding commits o)
    ∙ either_way (contains (reverse commits) o) (contains commits o) (current_status main es o)
        (contains-reverse commits o)
