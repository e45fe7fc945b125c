-- ===== src/EventLog/Stored.antt =====
-- eventlog.rs: what is written to the database and what is read from it.
use git_branchless.Prelude.{
  some, Option-cases, Result, ok, err, ◌>>=◌, collect, String, string_eq, int_eq, ◌==◌, Bool, not,
  keep, All, ==_iff, ◌≡◌, refl, sym, ap, ◌∙◌, arith, true, Bool-cases, inl, inr, List, [], ◌∷◌,
  ◌++◌,
}
use mathlib.Core.Path.{subst}
use git_branchless.Oid.{OidText}
use git_branchless.EventLog.{EventTransactionId, id, suppressed, tx_eq, Event, get_event_tx_id}
use git_branchless.EventLog.Row.{to_row, from_row, HasOids, ReadsBack, to_row-ReadsBack}
use git_branchless.EventLog.Db.{
  EventLogDb, in_isize, TxText, tx_to_string, parse_tx, insert_rows, add_events, get_events,
}

-- the events that `add_events` does not skip
abbrev pub is_recorded : Event → Bool
is_recorded e = not (get_event_tx_id e == suppressed)

>>=_assoc :
    {E A B C : Type 0} (m : Result E A) (f : A → Result E B) (g : B → Result E C)
    → (m >>= f >>= g) ≡ (m >>= λ a. f a >>= g)
>>=_assoc (ok a) f g = refl
>>=_assoc (err e) f g = refl

>>=-ok : {E A : Type 0} (m : Result E A) → (m >>= ok) ≡ m
>>=-ok (ok a) = refl
>>=-ok (err e) = refl

collect-append :
    {E A B : Type 0} (f : A → Result E B) (xs ys : List A)
    → collect f (xs ++ ys) ≡ (collect f xs >>= λ us. collect f ys >>= λ vs. ok (us ++ vs))
collect-append f [] ys = sym (>>=-ok (collect f ys))
collect-append f (x ∷ xs) ys = simp (collect-append f xs ys, >>=_assoc)

module _ (git : OidText) where
  read_rows :
      (es : List Event)
      → All HasOids es
      → collect (from_row git) (insert_rows git es) ≡ ok (keep is_recorded es)
  unfolding insert_rows
  read_rows [] h = refl
  read_rows (e ∷ es) h = elim (Option-cases (to_row git e)) [
    | inl skipped ↦
        let tx = subst (λ r. ReadsBack git r e) skipped (to_row-ReadsBack git e h.0) in
        rw (skipped, insert_rows, tx) (read_rows es h.1)
    | inr (row, written) ↦
        let back = subst (λ r. ReadsBack git r e) written (to_row-ReadsBack git e h.0) in
        rw (written, insert_rows, back.0, back.1, read_rows es h.1)
  ]

  -- Events that are added are read back after those that were there, in the order of their
  -- addition, without those of the suppressed transaction.
  pub get_events-add_events :
      (db : EventLogDb) (old es : List Event)
      → get_events git db ≡ ok old
      → All HasOids es
      → get_events git (add_events git db es) ≡ ok (old ++ keep is_recorded es)
  unfolding get_events add_events
  get_events-add_events db old es h k =
      rw (collect-append (from_row git) db.event_log (insert_rows git es), h, read_rows es k)

-- a transaction id that the program can have
abbrev pub IsTx : EventTransactionId → Type 0
IsTx (id n) = in_isize n ≡ true
IsTx suppressed = Unit

-- A transaction id that is handed on in the environment is read back as it was, its number being in the
-- range of `isize`; and a text that is read as a transaction id at all gives one in that range.
pub parse_tx-to_string :
    (text : TxText) (tx : EventTransactionId)
    → (IsTx tx → parse_tx text (tx_to_string text tx) ≡ some tx)
      × ((s : String) → parse_tx text s ≡ some tx → IsTx tx)
unfolding parse_tx tx_to_string
parse_tx-to_string text (id n) = (
  (λ range.
      let back = text.parse-render n range in
      ground (arith, back, text.render-ne-suppressed n, ==_iff (text.render n) "SUPPRESSED")),
  λ s read. elim (Bool-cases (s == "SUPPRESSED")) [
    | inl same ↦ absurd (ground arith)
    | inr other ↦ elim (Option-cases (text.parse s)) [
      | inl bad ↦ absurd (ground arith)
      | inr (m, found) ↦
          let is_n : m ≡ n = ground arith in text.parse-in_isize s n (found ∙ ap some is_n)
    ]
  ],
)
parse_tx-to_string text suppressed = ((λ range. refl), λ s read. tt)
