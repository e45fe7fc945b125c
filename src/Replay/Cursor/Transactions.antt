-- ===== src/Replay/Cursor/Transactions.antt =====
-- eventlog.rs: moves of a cursor by transactions, and where they end.
use native.Mathlib.Numerals.{add-one}
use git_branchless.Prelude.{
  ℕ, zero, suc, ◌+◌, ◌≤◌, ◌<◌, ◌≡◌, ◌≢◌, refl, sym, ◌∙◌, inl, inr, ℤ, pos, negsuc, ◌+ℤ◌, Option,
  some, Bool-cases, ==_iff, ==_ne, option_eq, nat_eq, true, false, length, is_empty,
  length-of-is_empty, arith, ltb, ◌==◌,
}
use git_branchless.EventLog.{tx_eq}
use git_branchless.Replay.{EventCursor, EventReplayer}
use git_branchless.Replay.Cursor.{
  at, snap_to_transaction_boundary, enough, advance_cursor_by_transaction_helper,
  advance_cursor_by_transaction,
}
use git_branchless.Replay.Cursor.Snap.{
  tx_before, IsBoundary, next_cursor, next_cursor_end, prev_cursor, prev_cursor_start,
  tx_before-zero, tx_before-suc, Snapped, snap_lem,
}

module _ (r : EventReplayer) where
  -- a cursor that no transaction straddles
  abbrev pub EndsAtBoundary : Option EventCursor → Type 0
  EndsAtBoundary result = (d : ℕ) × (result ≡ some (at d)) × (d ≤ length r.events) × IsBoundary r d

  helper_zero :
      (fuel c : ℕ)
      → 0 < fuel
      → c ≤ length r.events
      → EndsAtBoundary (advance_cursor_by_transaction_helper r fuel (at c) (pos 0))
  unfolding advance_cursor_by_transaction_helper
  helper_zero zero c f h = elim f [ ]
  helper_zero (suc fuel) c f h =
      let (d, ends, s) = snap_lem r (enough r) c h (omega arith) in (d, ends, s.within, s.boundary)

  -- the first position is a boundary: no event is before it
  start_IsBoundary : IsBoundary r 0
  start_IsBoundary = elim (Bool-cases (0 == length r.events)) [
    | inl none_yet ↦ inl (ground arith)
    | inr some_event ↦
        let (e, found, tx) = tx_before-suc r 0 (ground arith) in
        inr (ground (arith, tx_before-zero r))
  ]

  -- the next-to-last number of a move backwards
  abbrev back : ℕ → ℤ
  back zero = pos 0
  back (suc n) = negsuc n

  back_step : (n : ℕ) → negsuc n +ℤ pos 1 ≡ back n
  back_step zero = refl
  back_step (suc n) = ground arith

  moved_on : (c : ℕ) → (c == c + 1) ≡ false
  moved_on c = ground arith

  moved_back : (c : ℕ) → (suc c == c) ≡ false
  moved_back c = ground arith

  helper_next_same :
      (fuel c n : ℕ)
      → c < length r.events
      → (tx_before r c == tx_before r (c + 1)) ≡ true
      → advance_cursor_by_transaction_helper r (suc fuel) (at c) (pos (suc n))
        ≡ advance_cursor_by_transaction_helper r fuel (at (c + 1)) (pos (suc n))
  unfolding advance_cursor_by_transaction_helper
  helper_next_same fuel c n h same = rw (next_cursor r c h, moved_on c, same)

  helper_next_other :
      (fuel c n : ℕ)
      → c < length r.events
      → (tx_before r c == tx_before r (c + 1)) ≡ false
      → advance_cursor_by_transaction_helper r (suc fuel) (at c) (pos (suc n))
        ≡ advance_cursor_by_transaction_helper r fuel (at (c + 1)) (pos n)
  unfolding advance_cursor_by_transaction_helper
  helper_next_other fuel c n h other = rw (next_cursor r c h, moved_on c, other)

  helper_back_same :
      (fuel c n : ℕ)
      → c < length r.events
      → (tx_before r (suc c) == tx_before r c) ≡ true
      → advance_cursor_by_transaction_helper r (suc fuel) (at (suc c)) (negsuc n)
        ≡ advance_cursor_by_transaction_helper r fuel (at c) (negsuc n)
  unfolding advance_cursor_by_transaction_helper
  helper_back_same fuel c n h same = rw (prev_cursor r c h, moved_back c, same)

  helper_back_other :
      (fuel c n : ℕ)
      → c < length r.events
      → (tx_before r (suc c) == tx_before r c) ≡ false
      → advance_cursor_by_transaction_helper r (suc fuel) (at (suc c)) (negsuc n)
        ≡ advance_cursor_by_transaction_helper r fuel (at c) (back n)
  unfolding advance_cursor_by_transaction_helper
  helper_back_other fuel c n h other = rw (prev_cursor r c h, moved_back c, other, back_step n)

  helper_forward :
      (fuel c n : ℕ)
      → c ≤ length r.events
      → length r.events < fuel + c
      → EndsAtBoundary (advance_cursor_by_transaction_helper r fuel (at c) (pos n))
  helper_forward fuel c zero h f = helper_zero fuel c (omega arith) h
  helper_forward zero c (suc n) h f = absurd (omega arith)
  helper_forward (suc fuel) c (suc n) h f = elim (Bool-cases (ltb c (length r.events))) [
    | inr last ↦
        let e : c ≡ length r.events = ground arith in
        (
          length r.events,
          unfold advance_cursor_by_transaction_helper in rw (e, next_cursor_end r) (ground arith),
          omega arith,
          inl refl,
        )
    | inl more ↦
        let lt : c < length r.events = ground arith in
        elim (Bool-cases (tx_before r c == tx_before r (c + 1))) [
          | inl same ↦
              rw (helper_next_same fuel c n lt same)
                (helper_forward fuel (c + 1) (suc n) (omega arith) (omega arith))
          | inr other ↦
              rw (helper_next_other fuel c n lt other)
                (helper_forward fuel (c + 1) n (omega arith) (omega arith))
        ]
  ]

  helper_backward :
      (fuel c n : ℕ)
      → c ≤ length r.events
      → c < fuel
      → EndsAtBoundary (advance_cursor_by_transaction_helper r fuel (at c) (back n))
  helper_backward fuel c zero h f = helper_zero fuel c (omega arith) h
  helper_backward zero c (suc n) h f = absurd (omega arith)
  helper_backward (suc fuel) zero (suc n) h f = (
    0,
    unfold advance_cursor_by_transaction_helper in rw (prev_cursor_start r),
    omega arith,
    start_IsBoundary,
  )
  helper_backward (suc fuel) (suc c) (suc n) h f =
      elim (Bool-cases (tx_before r (suc c) == tx_before r c)) [
        | inl same ↦
            rw (helper_back_same fuel c n h same)
              (helper_backward fuel c (suc n) (omega arith) (omega arith))
        | inr other ↦
            rw (helper_back_other fuel c n h other)
              (helper_backward fuel c n (omega arith) (omega arith))
      ]

  abbrev pub move_from : ℕ → ℤ → Option EventCursor
  move_from d num = advance_cursor_by_transaction_helper r (suc (enough r)) (at d) num

  move_from_lem : (d : ℕ) (num : ℤ) → d ≤ length r.events → EndsAtBoundary (move_from d num)
  move_from_lem d (pos n) h = helper_forward (suc (enough r)) d n h (omega arith)
  move_from_lem d (negsuc n) h = helper_backward (suc (enough r)) d (suc n) h (omega arith)

  -- a move snaps first
  pub advance_eq :
      (c : ℕ) (num : ℤ)
      → c ≤ length r.events
      → is_empty r.events ≡ false
      → (d : ℕ) × Snapped r c d × (advance_cursor_by_transaction r (at c) num ≡ move_from d num)
  advance_eq c num h some_event =
      let (d, ends, s) = snap_lem r (enough r) c h (omega arith) in
      (d, s, unfold advance_cursor_by_transaction in rw (some_event, ends))

  -- Whatever the number of transactions, a move from a valid cursor ends, at a cursor of the log
  -- that splits no transaction.
  pub advance-EndsAtBoundary :
      (c : ℕ) (num : ℤ)
      → c ≤ length r.events
      → EndsAtBoundary (advance_cursor_by_transaction r (at c) num)
  advance-EndsAtBoundary c num h = elim (Bool-cases (is_empty r.events)) [
    | inl empty ↦
        let e : c ≡ length r.events = omega (arith, length-of-is_empty r.events empty) in
        (c, unfold advance_cursor_by_transaction in rw empty, h, inl e)
    | inr some_event ↦
        let (d, s, e) = advance_eq c num h some_event in rw e (move_from_lem d num s.within)
  ]

  not_first : (c : ℕ) → c < length r.events → tx_before r (suc c) ≡ tx_before r c → 0 < c
  not_first zero h e = let (_, _, tx) = tx_before-suc r 0 h in absurd (cc (e, tx, tx_before-zero r))
  not_first (suc c) h e = omega arith

  stay :
      (fuel c : ℕ)
      → 0 < fuel
      → c < length r.events
      → tx_before r c ≢ tx_before r (suc c)
      → advance_cursor_by_transaction_helper r fuel (at c) (pos 0) ≡ some (at c)
  unfolding advance_cursor_by_transaction_helper snap_to_transaction_boundary
  stay zero c f h ne = absurd (omega arith)
  stay (suc fuel) c f h ne =
      rw (next_cursor r c h, moved_on c, add-one, ==_ne (tx_before r c) (tx_before r (suc c)) ne)

  -- Back by one transaction: to the position before the first event of the last one.
  pub start_of_transaction :
      (fuel c : ℕ)
      → 0 < c
      → c ≤ length r.events
      → c < fuel
      → (s : ℕ) × (advance_cursor_by_transaction_helper r fuel (at c) (negsuc 0) ≡ some (at s))
        × (s < c)
        × (tx_before r s ≢ tx_before r c)
        × ((i : ℕ) → s < i → i ≤ c → tx_before r i ≡ tx_before r c)
  start_of_transaction fuel zero p h f = absurd (omega arith)
  start_of_transaction zero (suc c) p h f = absurd (omega arith)
  start_of_transaction (suc fuel) (suc c) p h f =
      elim (Bool-cases (tx_before r (suc c) == tx_before r c)) [
        | inl same ↦
            let e = (==_iff (tx_before r (suc c)) (tx_before r c)).0 same in
            let (s, ends, lt, ne, run) =
              start_of_transaction fuel c (not_first c (omega arith) e) (omega arith)
                (omega arith) in
            (
              s,
              helper_back_same fuel c 0 (omega arith) same ∙ ends,
              omega arith,
              λ q. ne (q ∙ e),
              λ i lo hi. elim (Bool-cases (i == suc c)) [
                | inl last ↦ let at_end : i ≡ suc c = ground arith in rw at_end
                | inr before ↦ run i lo (ground arith) ∙ sym e
              ],
            )
        | inr other ↦
            let ne : tx_before r c ≢ tx_before r (suc c) =
              λ q. cc ((==_iff (tx_before r (suc c)) (tx_before r c)).1 (sym q)) in
            (
              c,
              helper_back_other fuel c 0 (omega arith) other
                  ∙ stay fuel c (omega arith) (omega arith) ne,
              omega arith,
              ne,
              λ i lo hi. let at_end : i ≡ suc c = omega arith in rw at_end,
            )
      ]
