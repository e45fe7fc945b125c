-- ===== src/Replay/Cursor.antt =====
-- eventlog.rs: cursors, and their moves by events and by transactions.
-- The two recursions take fuel; `none` means that it ran out.
-- The number of a cursor is never negative, since `make_cursor` makes every cursor.
pub mod Snap
pub mod Transactions
pub mod TxEvents
use mathlib.Core.Option as MathOption
use git_branchless.Prelude.{
  ℕ, zero, suc, ◌+◌, ◌-◌, ℤ, pos, negsuc, ◌+ℤ◌, Option, none, some, Bool, nat_eq, option_eq, ◌==◌,
  if◌then◌else◌, List, [], ◌∷◌, length, is_empty, get_elem?, take, drop, ltb,
}
use git_branchless.EventLog.{EventTransactionId, tx_eq, Event, get_event_tx_id}
use git_branchless.Replay.{EventCursor, EventReplayer}

abbrev pub at : ℕ → EventCursor
at n = record { event_id = n }

module _ (r : EventReplayer) where
  -- `make_cursor`, once the event ID is not negative
  unfoldable pub make_cursor_ℕ : ℕ → EventCursor
  make_cursor_ℕ event_id =
      if ltb (length r.events) event_id then at (length r.events) else at event_id

  unfoldable pub make_cursor : ℤ → EventCursor
  unfolding make_cursor_ℕ
  make_cursor (pos n) = make_cursor_ℕ n
  make_cursor (negsuc _) = make_cursor_ℕ 0

  unfoldable pub make_default_cursor : EventCursor
  unfolding make_cursor
  make_default_cursor = make_cursor (pos (length r.events))

  unfoldable pub advance_cursor : EventCursor → ℤ → EventCursor
  unfolding make_cursor
  advance_cursor cursor num_events = make_cursor (pos cursor.event_id +ℤ num_events)

  -- The index is in range for every cursor that `make_cursor` makes.
  unfoldable pub get_event_before_cursor : EventCursor → Option (ℕ × Event)
  get_event_before_cursor cursor =
      if cursor.event_id == 0 then none else elim (get_elem? r.events (cursor.event_id - 1)) [
        | none ↦ none
        | some e ↦ some (cursor.event_id, e)
      ]

  unfoldable pub get_event_tx_id_before_cursor : EventCursor → Option EventTransactionId
  unfolding get_event_before_cursor
  get_event_tx_id_before_cursor cursor = elim (get_event_before_cursor cursor) [
    | none ↦ none
    | some (_, event) ↦ some (get_event_tx_id event)
  ]

  abbrev same_cursor : EventCursor → EventCursor → Bool
  same_cursor a b = a.event_id == b.event_id

  abbrev same_tx : EventCursor → EventCursor → Bool
  same_tx a b = get_event_tx_id_before_cursor a == get_event_tx_id_before_cursor b

  unfoldable pub snap_to_transaction_boundary : ℕ → EventCursor → Option EventCursor
  snap_to_transaction_boundary zero cursor = none
  snap_to_transaction_boundary (suc fuel) cursor =
      let next_cursor = advance_cursor cursor (pos 1) in
      let rest = snap_to_transaction_boundary fuel next_cursor in
      if same_cursor cursor next_cursor
      then some cursor
      else if same_tx cursor next_cursor
      then rest
      else some cursor

  -- one event more than the log has
  abbrev pub enough : ℕ
  enough = suc (length r.events)

  -- `Ordering::Greater` is a positive number, `Ordering::Less` a negative one.
  unfoldable pub advance_cursor_by_transaction_helper : ℕ → EventCursor → ℤ → Option EventCursor
  advance_cursor_by_transaction_helper zero cursor num = none
  advance_cursor_by_transaction_helper (suc fuel) cursor (pos zero) =
      snap_to_transaction_boundary enough cursor
  advance_cursor_by_transaction_helper (suc fuel) cursor (pos (suc n)) =
      let next_cursor = advance_cursor cursor (pos 1) in
      let num = if same_tx cursor next_cursor then pos (suc n) else pos n in
      let rest = advance_cursor_by_transaction_helper fuel next_cursor num in
      if same_cursor cursor next_cursor then some next_cursor else rest
  advance_cursor_by_transaction_helper (suc fuel) cursor (negsuc n) =
      let prev_cursor = advance_cursor cursor (negsuc 0) in
      let num = if same_tx cursor prev_cursor then negsuc n else negsuc n +ℤ pos 1 in
      let rest = advance_cursor_by_transaction_helper fuel prev_cursor num in
      if same_cursor cursor prev_cursor then some prev_cursor else rest

  -- Each move of the helper is by one event, and the last one snaps.
  unfoldable pub advance_cursor_by_transaction : EventCursor → ℤ → Option EventCursor
  advance_cursor_by_transaction cursor num =
      if is_empty r.events then some cursor else elim (snap_to_transaction_boundary enough cursor) [
        | none ↦ none
        | some c ↦ advance_cursor_by_transaction_helper (suc enough) c num
      ]

  -- `&self.events[from..to]`
  abbrev pub slice : ℕ → ℕ → List Event
  slice from to = take (to - from) (drop from r.events)

  -- the outer `none` is an exhausted fuel
  unfoldable pub get_tx_events_before_cursor : EventCursor → Option (Option (ℕ × List Event))
  get_tx_events_before_cursor cursor = elim (advance_cursor_by_transaction cursor (negsuc 0)) [
    | none ↦ none
    | some prev ↦ elim (slice prev.event_id cursor.event_id) [
      | [] ↦ some none
      | e ∷ es ↦ some (some (prev.event_id + 1, e ∷ es))
    ]
  ]

  -- `get_events_since_cursor`
  unfoldable pub get_events_since_cursor : EventCursor → List Event
  get_events_since_cursor cursor = drop cursor.event_id r.events
