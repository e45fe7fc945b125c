-- ===== src/Rewrite.antt =====
-- git-branchless-lib/src/core/rewrite/evolve.rs: the newest version of a rewritten commit.
-- The recursion takes fuel; the outer `none` is its exhaustion.
pub mod Chain
pub mod Ends
use git_branchless.Prelude.{ℕ, zero, suc, Option, none, some, Bool, not, ◌&&◌, ◌==◌, if◌then◌else◌}
use git_branchless.Oid.{NonZeroOid, MaybeZeroOid, non_zero, oid_eq, maybe_oid_eq}
use git_branchless.EventLog.{Event, rewrite_event}
use git_branchless.Replay.{EventCursor, EventReplayer}
use git_branchless.Replay.Status.{get_cursor_commit_latest_event}

-- what is made of the result for the new commit
abbrev pub or_this : NonZeroOid → Option (Option MaybeZeroOid) → Option (Option MaybeZeroOid)
or_this new none = none
or_this new (some none) = some (some (non_zero new))
or_this new (some (some newer)) = some (some newer)

-- the match on the latest event, with the recursive call
unfoldable pub rewrite_target :
    (NonZeroOid → Option (Option MaybeZeroOid)) → NonZeroOid → Event → Option (Option MaybeZeroOid)
rewrite_target find_newer oid (rewrite_event _ _ (non_zero old) MaybeZeroOid.zero) =
    if old == oid then some (some MaybeZeroOid.zero) else some none
rewrite_target find_newer oid (rewrite_event _ _ (non_zero old) (non_zero new)) =
    if old == oid && not (new == oid) then or_this new (find_newer new) else some none
rewrite_target find_newer oid _ = some none

unfoldable pub find_rewrite_target :
    ℕ → EventReplayer → EventCursor → NonZeroOid → Option (Option MaybeZeroOid)
unfolding rewrite_target
find_rewrite_target zero r cursor oid = none
find_rewrite_target (suc fuel) r cursor oid = elim (get_cursor_commit_latest_event r cursor oid) [
  | none ↦ some none
  | some event ↦ rewrite_target (λ new. find_rewrite_target fuel r cursor new) oid event
]
