-- ===== src/Replay/Cursor/Snap.antt =====
-- eventlog.rs: single moves of a cursor, and snapping it to the boundary of a transaction.
use git_branchless.Prelude.{
  ℕ, zero, suc, ◌+◌, ◌≤◌, ◌<◌, ◌≡◌, ◌≢◌, refl, sym, ◌∙◌, ◌⊎◌, inl, inr, pos, negsuc, Option, none,
  some, Bool-cases, ==_iff, option_eq, nat_eq, List, [], ◌∷◌, length, get_elem?, arith, ltb, ◌==◌,
}
use git_branchless.EventLog.{EventTransactionId, tx_eq, Event, get_event_tx_id}
use git_branchless.Replay.{EventReplayer}
use git_branchless.Replay.Cursor.{
  at, advance_cursor, get_event_tx_id_before_cursor, snap_to_transaction_boundary,
}

get_elem?-some :
    {A : Type 0} (xs : List A) (i : ℕ) → i < length xs → (a : A) × (get_elem? xs i ≡ some a)
get_elem?-some [] i h = elim h [ ]
get_elem?-some (x ∷ xs) zero h = (x, refl)
get_elem?-some (x ∷ xs) (suc i) h = get_elem?-some xs i (omega arith)

module _ (r : EventReplayer) where
  -- the transaction of the event before a position
  abbrev pub tx_before : ℕ → Option EventTransactionId
  tx_before i = get_event_tx_id_before_cursor r (at i)

  -- no transaction is split there
  abbrev pub IsBoundary : ℕ → Type 0
  IsBoundary c = (c ≡ length r.events) ⊎ (tx_before c ≢ tx_before (c + 1))

  pub next_cursor : (c : ℕ) → c < length r.events → advance_cursor r (at c) (pos 1) ≡ at (c + 1)
  unfolding advance_cursor
  next_cursor c h = ground arith

  pub next_cursor_end : advance_cursor r (at (length r.events)) (pos 1) ≡ at (length r.events)
  unfolding advance_cursor
  next_cursor_end = ground arith

  pub prev_cursor : (c : ℕ) → c < length r.events → advance_cursor r (at (suc c)) (negsuc 0) ≡ at c
  unfolding advance_cursor
  prev_cursor c h = ground arith

  pub prev_cursor_start : advance_cursor r (at 0) (negsuc 0) ≡ at 0
  unfolding advance_cursor
  prev_cursor_start = ground arith

  pub tx_before-zero : tx_before 0 ≡ none
  unfolding get_event_tx_id_before_cursor
  tx_before-zero = refl

  pub tx_before-suc :
      (c : ℕ)
      → c < length r.events
      → (e : Event) × (get_elem? r.events c ≡ some e)
        × (tx_before (suc c) ≡ some (get_event_tx_id e))
  unfolding get_event_tx_id_before_cursor
  tx_before-suc c h = let (e, found) = get_elem?-some r.events c h in (e, found, ground arith)

  pub record Snapped (c d : ℕ) : Type 0 where
    pub ahead : c ≤ d
    pub within : d ≤ length r.events
    pub boundary : IsBoundary d
    pub same : (i : ℕ) → c ≤ i → i ≤ d → tx_before i ≡ tx_before c

  snap_here : (c : ℕ) → c ≤ length r.events → IsBoundary c → Snapped c c
  snap_here c h b = record {
    ahead = omega arith;
    within = h;
    boundary = b;
    same = λ i p q. let e : i ≡ c = omega arith in rw e;
  }

  snap_past : (c d : ℕ) → tx_before c ≡ tx_before (c + 1) → Snapped (c + 1) d → Snapped c d
  snap_past c d e s = record {
    ahead = omega (arith, s.ahead);
    within = s.within;
    boundary = s.boundary;
    same = λ i p q. elim (Bool-cases (i == c)) [
      | inl here ↦ let at_c : i ≡ c = ground arith in rw at_c
      | inr later ↦ s.same i (ground arith) q ∙ sym e
    ];
  }

  -- With fuel for the events that follow, snapping ends at the first boundary.
  pub snap_lem :
      (fuel c : ℕ)
      → c ≤ length r.events
      → length r.events < fuel + c
      → (d : ℕ) × (snap_to_transaction_boundary r fuel (at c) ≡ some (at d)) × Snapped c d
  unfolding snap_to_transaction_boundary
  snap_lem zero c h f = absurd (omega arith)
  snap_lem (suc fuel) c h f = elim (Bool-cases (ltb c (length r.events))) [
    | inr last ↦
        let e : c ≡ length r.events = ground arith in
        (c, rw (e, next_cursor_end) (ground arith), snap_here c h (inl e))
    | inl more ↦
        let lt : c < length r.events = ground arith in
        elim (Bool-cases (tx_before c == tx_before (c + 1))) [
          | inl same ↦
              let (d, ends, s) = snap_lem fuel (c + 1) (omega arith) (omega arith) in
              (
                d,
                rw (next_cursor c lt) (ground arith),
                snap_past c d ((==_iff (tx_before c) (tx_before (c + 1))).0 same) s,
              )
          | inr other ↦ (
            c,
            rw (next_cursor c lt) (ground arith),
            snap_here c h (inr (λ e. cc ((==_iff (tx_before c) (tx_before (c + 1))).1 e))),
          )
        ]
  ]
