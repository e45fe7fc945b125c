-- ===== src/Replay/Cursor/TxEvents.antt =====
-- eventlog.rs: the events that `get_tx_events_before_cursor` returns.
use git_branchless.Prelude.{
  ℕ, suc, ◌+◌, ◌≤◌, ◌<◌, ◌≡◌, ◌≢◌, sym, ◌∙◌, inl, inr, negsuc, some, Bool-cases, false, List, ◌∷◌,
  length, is_empty, length-of-is_empty, slice_cons, arith, leb,
}
use git_branchless.EventLog.{Event}
use git_branchless.Replay.{EventReplayer}
use git_branchless.Replay.Cursor.{
  at, enough, advance_cursor_by_transaction, get_tx_events_before_cursor, slice,
}
use git_branchless.Replay.Cursor.Snap.{tx_before}
use git_branchless.Replay.Cursor.Transactions.{advance_eq, start_of_transaction}

module _ (r : EventReplayer) where
  -- `s` is where the transaction of the event before `c` starts
  pub record StartsAt (s c : ℕ) : Type 0 where
    pub before : s < c
    pub other_before : tx_before r s ≢ tx_before r c
    pub same_after : (i : ℕ) → s < i → i ≤ c → tx_before r i ≡ tx_before r c

  back_by_one :
      (c : ℕ)
      → 0 < c
      → c ≤ length r.events
      → (s : ℕ) × (advance_cursor_by_transaction r (at c) (negsuc 0) ≡ some (at s)) × StartsAt s c
  back_by_one c p h =
      let some_event : is_empty r.events ≡ false = elim (Bool-cases (is_empty r.events)) [
        | inl empty ↦ absurd (omega (arith, length-of-is_empty r.events empty))
        | inr full ↦ full
      ] in
      let (d, snapped, moved) = advance_eq r c (negsuc 0) h some_event in
      let (s, ends, lt, ne, run) =
        start_of_transaction r (suc (enough r)) d (omega (arith, snapped.ahead)) snapped.within
          (omega (arith, snapped.within)) in
      let tx = snapped.same d snapped.ahead (omega arith) in
      let before : s < c = elim (Bool-cases (leb c s)) [
        | inl late ↦ absurd (ne (snapped.same s (ground arith) (omega arith) ∙ sym tx))
        | inr early ↦ ground arith
      ] in
      (
        s,
        moved ∙ ends,
        record {
          before = before;
          other_before = λ q. ne (q ∙ sym tx);
          same_after = λ i lo hi. run i lo (omega (arith, snapped.ahead)) ∙ tx;
        },
      )

  slice_to_cursor :
      (c s : ℕ) (e : Event) (es : List Event)
      → advance_cursor_by_transaction r (at c) (negsuc 0) ≡ some (at s)
      → slice r s c ≡ e ∷ es
      → get_tx_events_before_cursor r (at c) ≡ some (some (s + 1, slice r s c))
  unfolding get_tx_events_before_cursor
  slice_to_cursor c s e es moved found = rw (moved, get_tx_events_before_cursor, found)

  -- For a valid cursor after some event, the result is the events from the start of the transaction
  -- of the event before the cursor up to the cursor, with the number of the first of them, from 1.
  pub get_tx_events_lem :
      (c : ℕ)
      → 0 < c
      → c ≤ length r.events
      → (s : ℕ) × (get_tx_events_before_cursor r (at c) ≡ some (some (s + 1, slice r s c)))
        × StartsAt s c
  get_tx_events_lem c p h =
      let (s, moved, starts) = back_by_one c p h in
      let (e, es, found) = slice_cons r.events s c starts.before h in
      (s, slice_to_cursor c s e es moved found, starts)
