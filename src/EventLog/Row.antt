-- ===== src/EventLog/Row.antt =====
-- eventlog.rs: the conversion of events to rows of the database and back.
use git_branchless.Prelude.{
  ℕ, ℤ, Option, none, some, Result, ok, err, ◌>>=◌, String, string_eq, ◌==◌, if◌then◌else◌, ◌≡◌,
  refl,
}
use git_branchless.Oid.{
  NonZeroOid, MaybeZeroOid, OidError, OidText, oid_to_string, maybe_oid_to_string, parse_maybe_oid,
  require_non_zero, IsOid, IsMaybeOid, parse_maybe_oid-to_string, parse_maybe_oid-oid_to_string,
}
use git_branchless.EventLog.{
  ReferenceName, id, suppressed, Event, get_event_tx_id, rewrite_event, ref_update_event,
  commit_event, obsolete_event, unobsolete_event, working_copy_snapshot,
}

pub record Row : Type 0 where
  pub timestamp : ℕ
  pub type_ : String
  pub event_tx_id : ℤ
  pub ref1 : Option ReferenceName
  pub ref2 : Option ReferenceName
  pub ref_name : Option ReferenceName
  pub message : Option ReferenceName

-- The messages of `try_from_row_helper`.
pub data RowError : Type 0 where
  -- the name of the identifier, the type of the event
  oid_missing : String → String → RowError
  ref_name_missing ref1_missing ref2_missing : RowError
  bad_oid : OidError → RowError
  unknown_event_type : String → RowError

-- `?` on an error of `oid.rs`
unfoldable pub wrap_oid : {A : Type 0} → Result OidError A → Result RowError A
wrap_oid (ok a) = ok a
wrap_oid (err e) = err (bad_oid e)

-- `.ok_or_else(..)?`
unfoldable pub ok_or : {A : Type 0} → RowError → Option A → Result RowError A
ok_or e (some a) = ok a
ok_or e none = err e

module _ (git : OidText) where
  -- `TryFrom<Event> for Row`: `none` is `Err(())`, for the events of a suppressed transaction.
  unfoldable pub to_row : Event → Option Row
  to_row (rewrite_event t (id tx) old new) = some (record {
    timestamp = t;
    type_ = "rewrite";
    event_tx_id = tx;
    ref1 = some (maybe_oid_to_string git old);
    ref2 = some (maybe_oid_to_string git new);
    ref_name = none;
    message = none;
  })
  to_row (ref_update_event t (id tx) name old new msg) = some (record {
    timestamp = t;
    type_ = "ref-move";
    event_tx_id = tx;
    ref1 = some (maybe_oid_to_string git old);
    ref2 = some (maybe_oid_to_string git new);
    ref_name = some name;
    message = msg;
  })
  to_row (commit_event t (id tx) oid) = some (record {
    timestamp = t;
    type_ = "commit";
    event_tx_id = tx;
    ref1 = some (oid_to_string git oid);
    ref2 = none;
    ref_name = none;
    message = none;
  })
  to_row (obsolete_event t (id tx) oid) = some (record {
    timestamp = t;
    type_ = "hide";
    event_tx_id = tx;
    ref1 = some (oid_to_string git oid);
    ref2 = none;
    ref_name = none;
    message = none;
  })
  to_row (unobsolete_event t (id tx) oid) = some (record {
    timestamp = t;
    type_ = "unhide";
    event_tx_id = tx;
    ref1 = some (oid_to_string git oid);
    ref2 = none;
    ref_name = none;
    message = none;
  })
  to_row (working_copy_snapshot t (id tx) head oid name) = some (record {
    timestamp = t;
    type_ = "snapshot";
    event_tx_id = tx;
    ref1 = some (maybe_oid_to_string git head);
    ref2 = some (oid_to_string git oid);
    ref_name = name;
    message = none;
  })
  to_row _ = none

  -- the closure `get_oid`
  unfoldable pub get_oid : String → Option ReferenceName → String → Result RowError MaybeZeroOid
  get_oid type_ (some name) oid_name = wrap_oid (parse_maybe_oid git name)
  get_oid type_ none oid_name = err (oid_missing oid_name type_)

  get_non_zero_oid : String → Option ReferenceName → String → Result RowError NonZeroOid
  get_non_zero_oid type_ name oid_name = do
    oid ← get_oid type_ name oid_name
    wrap_oid (require_non_zero oid)

  -- `try_from_row_helper`
  unfoldable pub from_row : Row → Result RowError Event
  unfolding get_non_zero_oid get_oid wrap_oid ok_or require_non_zero
  from_row row =
      let tx = id row.event_tx_id in
      if row.type_ == "rewrite"
      then (do
        old ← get_oid row.type_ row.ref1 "old commit OID"
        new ← get_oid row.type_ row.ref2 "new commit OID"
        ok (rewrite_event row.timestamp tx old new))
      else if row.type_ == "ref-move"
      then (do
        name ← ok_or ref_name_missing row.ref_name
        ref1 ← ok_or ref1_missing row.ref1
        ref2 ← ok_or ref2_missing row.ref2
        old ← wrap_oid (parse_maybe_oid git ref1)
        new ← wrap_oid (parse_maybe_oid git ref2)
        ok (ref_update_event row.timestamp tx name old new row.message))
      else if row.type_ == "commit"
      then (do
        oid ← get_non_zero_oid row.type_ row.ref1 "commit OID"
        ok (commit_event row.timestamp tx oid))
      else if row.type_ == "hide"
      then (do
        oid ← get_non_zero_oid row.type_ row.ref1 "commit OID"
        ok (obsolete_event row.timestamp tx oid))
      else if row.type_ == "unhide"
      then (do
        oid ← get_non_zero_oid row.type_ row.ref1 "commit OID"
        ok (unobsolete_event row.timestamp tx oid))
      else if row.type_ == "snapshot"
      then (do
        head ← get_oid row.type_ row.ref1 "head OID"
        oid ← get_non_zero_oid row.type_ row.ref2 "commit OID"
        ok (working_copy_snapshot row.timestamp tx head oid row.ref_name))
      else err (unknown_event_type row.type_)

-- The identifiers of an event are what `git2` could have produced.
abbrev pub HasOids : Event → Type 0
HasOids (rewrite_event _ _ old new) = IsMaybeOid old × IsMaybeOid new
HasOids (ref_update_event _ _ _ old new _) = IsMaybeOid old × IsMaybeOid new
HasOids (commit_event _ _ oid) = IsOid oid
HasOids (obsolete_event _ _ oid) = IsOid oid
HasOids (unobsolete_event _ _ oid) = IsOid oid
HasOids (working_copy_snapshot _ _ head oid _) = IsMaybeOid head × IsOid oid

-- What `from_row` makes of the row that an event became; a suppressed event becomes none.
abbrev pub ReadsBack : OidText → Option Row → Event → Type 0
ReadsBack git none e = get_event_tx_id e ≡ suppressed
ReadsBack git (some row) e = (from_row git row ≡ ok e) × (get_event_tx_id e ≡ id row.event_tx_id)

module _ (git : OidText) where
  pub to_row-ReadsBack : (e : Event) → HasOids e → ReadsBack git (to_row git e) e
  unfolding to_row from_row get_event_tx_id
  to_row-ReadsBack (rewrite_event t (id tx) old new) h =
      (rw (parse_maybe_oid-to_string git old h.0, parse_maybe_oid-to_string git new h.1), refl)
  to_row-ReadsBack (ref_update_event t (id tx) name old new msg) h =
      (rw (parse_maybe_oid-to_string git old h.0, parse_maybe_oid-to_string git new h.1), refl)
  to_row-ReadsBack (commit_event t (id tx) oid) h =
      (rw (parse_maybe_oid-oid_to_string git oid h), refl)
  to_row-ReadsBack (obsolete_event t (id tx) oid) h =
      (rw (parse_maybe_oid-oid_to_string git oid h), refl)
  to_row-ReadsBack (unobsolete_event t (id tx) oid) h =
      (rw (parse_maybe_oid-oid_to_string git oid h), refl)
  to_row-ReadsBack (working_copy_snapshot t (id tx) head oid name) h =
      (rw (parse_maybe_oid-to_string git head h.0, parse_maybe_oid-oid_to_string git oid h.1), refl)
  to_row-ReadsBack (rewrite_event t suppressed old new) h = refl
  to_row-ReadsBack (ref_update_event t suppressed name old new msg) h = refl
  to_row-ReadsBack (commit_event t suppressed oid) h = refl
  to_row-ReadsBack (obsolete_event t suppressed oid) h = refl
  to_row-ReadsBack (unobsolete_event t suppressed oid) h = refl
  to_row-ReadsBack (working_copy_snapshot t suppressed head oid name) h = refl
