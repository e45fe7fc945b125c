-- ===== src/EventLog.antt =====
-- git-branchless-lib/src/core/eventlog.rs: the events, and which reference updates are ignored.
-- `timestamp` stands for the bits of an `f64`, which the log only copies.
use text.Mathlib.Text.{starts_with}
pub mod Row
pub mod Db
pub mod Stored
use git_branchless.Prelude.{
  ℕ, ℤ, Bool, true, false, ◌||◌, Option, String, ◌≡◌, ◌↔◌, EqTest, int_eqb, int_eqb_iff, string_eq,
  ◌==◌, if◌then◌else◌, arith,
}
use git_branchless.Oid.{NonZeroOid, MaybeZeroOid}

-- `ReferenceName(String)`
abbrev pub ReferenceName : Type 0
ReferenceName = String

pub data EventTransactionId : Type 0 where
  id : ℤ → EventTransactionId
  suppressed : EventTransactionId

abbrev pub tx_eqb : EventTransactionId → EventTransactionId → Bool
tx_eqb (id a) (id b) = int_eqb a b
tx_eqb suppressed suppressed = true
tx_eqb _ _ = false

pub tx_eqb_iff : (a b : EventTransactionId) → (tx_eqb a b ≡ true) ↔ (a ≡ b)
tx_eqb_iff (id a) (id b) = ground (arith, int_eqb_iff a b)
tx_eqb_iff (id a) suppressed = ground arith
tx_eqb_iff suppressed (id b) = ground arith
tx_eqb_iff suppressed suppressed = ground arith

instance abbrev pub tx_eq : EqTest EventTransactionId
tx_eq = record { eqb = tx_eqb; eqb_iff = tx_eqb_iff }

-- `Event`: the arguments stand in the order of the source's fields.
pub data Event : Type 0 where
  -- timestamp, event_tx_id, old_commit_oid, new_commit_oid
  rewrite_event : ℕ → EventTransactionId → MaybeZeroOid → MaybeZeroOid → Event
  -- timestamp, event_tx_id, ref_name, old_oid, new_oid, message
  ref_update_event :
      ℕ
      → EventTransactionId
      → ReferenceName
      → MaybeZeroOid
      → MaybeZeroOid
      → Option ReferenceName
      → Event
  -- timestamp, event_tx_id, commit_oid
  commit_event : ℕ → EventTransactionId → NonZeroOid → Event
  obsolete_event : ℕ → EventTransactionId → NonZeroOid → Event
  unobsolete_event : ℕ → EventTransactionId → NonZeroOid → Event
  -- timestamp, event_tx_id, head_oid, commit_oid, ref_name
  working_copy_snapshot :
      ℕ → EventTransactionId → MaybeZeroOid → NonZeroOid → Option ReferenceName → Event

-- `Event::get_event_tx_id`
unfoldable pub get_event_tx_id : Event → EventTransactionId
get_event_tx_id (rewrite_event _ tx _ _) = tx
get_event_tx_id (ref_update_event _ tx _ _ _ _) = tx
get_event_tx_id (commit_event _ tx _) = tx
get_event_tx_id (obsolete_event _ tx _) = tx
get_event_tx_id (unobsolete_event _ tx _) = tx
get_event_tx_id (working_copy_snapshot _ tx _ _ _) = tx

unfoldable pub is_gc_ref : ReferenceName → Bool
is_gc_ref name = starts_with name "refs/branchless/"

unfoldable pub should_ignore_ref_updates : ReferenceName → Bool
should_ignore_ref_updates name =
    if is_gc_ref name
    then true
    else name == "ORIG_HEAD"
      || (name == "CHERRY_PICK"
          || (name == "REBASE_HEAD"
              || (name == "CHERRY_PICK_HEAD" || (name == "AUTO_MERGE" || name == "FETCH_HEAD"))))
