-- ===== src/Gc.antt =====
-- git-branchless-lib/src/core/gc.rs: which references are removed.
-- A reference is what `get_name` and `peel_to_commit` answer for it, errors included.
pub mod Outcomes
pub mod Exact
use git_branchless.Prelude.{
  Option, none, some, Bool, true, false, not, if◌then◌else◌, List, [], ◌∷◌, Result, ok, err, ◌>>=◌,
}
use git_branchless.Oid.{NonZeroOid}
use git_branchless.EventLog.{ReferenceName, is_gc_ref}
use git_branchless.Replay.{
  CommitActivityStatus, active, inactive, obsolete, EventCursor, EventReplayer,
}
use git_branchless.Replay.Status.{get_cursor_commit_activity_status}

pub record Reference (E : Type 0) : Type 0 where
  pub get_name : Result E ReferenceName
  -- `none` for another kind of object
  pub peel_to_commit : Result E (Option NonZeroOid)

module _ (r : EventReplayer) (cursor : EventCursor) where
  -- the part of the loop's body after the test of the name
  unfoldable pub is_hidden : Option NonZeroOid → Bool
  is_hidden none = false
  is_hidden (some oid) = elim (get_cursor_commit_activity_status r cursor oid) [
    | active ↦ false
    | inactive ↦ false
    | obsolete ↦ true
  ]

module _ {E : Type 0} (r : EventReplayer) (cursor : EventCursor) where
  -- the loop's body after `get_name`: only the references of the garbage collection are peeled
  abbrev pub is_dangling_gc_ref : Reference E → Bool → Result E Bool
  is_dangling_gc_ref reference false = ok false
  is_dangling_gc_ref reference true =
      reference.peel_to_commit >>= λ commit. ok (is_hidden r cursor commit)

  -- the body of the loop: whether the reference is pushed to the result
  unfoldable pub is_dangling : Reference E → Result E Bool
  is_dangling reference =
      reference.get_name >>= λ name. is_dangling_gc_ref reference (is_gc_ref name)

  -- the loop
  unfoldable pub dangling_among : List (Reference E) → Result E (List (Reference E))
  unfolding is_dangling
  dangling_among [] = ok []
  dangling_among (reference ∷ references) = is_dangling reference >>= λ dangling.
      dangling_among references >>= λ result. ok (if dangling then reference ∷ result else result)

  -- of what `get_all_references` answers
  unfoldable pub find_dangling_references :
      Result E (List (Reference E)) → Result E (List (Reference E))
  unfolding dangling_among
  find_dangling_references get_all_references =
      get_all_references >>= λ references. dangling_among references
