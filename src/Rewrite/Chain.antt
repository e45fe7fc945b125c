-- ===== src/Rewrite/Chain.antt =====
-- evolve.rs: one step of the search for the newest version.
use git_branchless.Prelude.{
  ℕ, zero, suc, ◌≡◌, ◌≢◌, refl, Option, none, some, true, Bool-cases, inl, inr, ==_iff, ==_ne,
  ==_self, ◌⊎◌, nat_eq, ◌==◌, List, take, arith,
}
use git_branchless.Oid.{NonZeroOid, MaybeZeroOid, non_zero, oid_eq}
use git_branchless.EventLog.{
  ReferenceName, EventTransactionId, Event, rewrite_event, ref_update_event, commit_event,
  obsolete_event, unobsolete_event, working_copy_snapshot,
}
use git_branchless.Replay.{EventCursor, from_events}
use git_branchless.Replay.Status.Latest.{mentions, last_mention, event_of, latest_event_lem}
use git_branchless.Rewrite.{or_this, rewrite_target, find_rewrite_target}

-- The search on a list of events, as the list alone determines it.
unfoldable pub search_in : ℕ → List Event → NonZeroOid → Option (Option MaybeZeroOid)
search_in zero es o = none
search_in (suc fuel) es o = elim (event_of (last_mention 0 es o)) [
  | none ↦ some none
  | some event ↦ rewrite_target (λ new. search_in fuel es new) o event
]

module _ (main : ReferenceName) (es : List Event) (cursor : EventCursor) where
  pub search_in_lem :
      (fuel : ℕ) (o : NonZeroOid)
      → find_rewrite_target fuel (from_events main es) cursor o
        ≡ search_in fuel (take cursor.event_id (from_events main es).events) o
  unfolding find_rewrite_target search_in
  search_in_lem zero o = refl
  search_in_lem (suc fuel) o = λ i. elim (latest_event_lem main es cursor o i) [
    | none ↦ some none
    | some event ↦ rewrite_target (λ new. search_in_lem fuel new i) o event
  ]

-- a rewrite mentions both its commits
pub mentions_new :
    (t : ℕ) (tx : EventTransactionId) (old : MaybeZeroOid) (new : NonZeroOid)
    → mentions (rewrite_event t tx old (non_zero new)) new ≡ true
unfolding mentions
mentions_new t tx MaybeZeroOid.zero new = ==_self new
mentions_new t tx (non_zero old) new = ground (arith, ==_self new)

-- a rewrite of another commit ends the search
pub stops :
    (find_newer : NonZeroOid → Option (Option MaybeZeroOid)) (t : ℕ) (tx : EventTransactionId)
    (old new o : NonZeroOid)
    → old ≢ o
    → rewrite_target find_newer o (rewrite_event t tx (non_zero old) (non_zero new)) ≡ some none
unfolding rewrite_target
stops find_newer t tx old new o h = rw (==_ne old o h)

-- The search goes on only from a rewrite of the commit into another one.
pub record Follows (o : NonZeroOid) (e : Event) : Type 0 where
  pub time : ℕ
  pub tx : EventTransactionId
  pub new : NonZeroOid
  pub is_rewrite : e ≡ rewrite_event time tx (non_zero o) (non_zero new)
  pub changes : new ≢ o

pub rewrite_target-cases :
    (find_newer : NonZeroOid → Option (Option MaybeZeroOid)) (o : NonZeroOid) (e : Event)
    → (rewrite_target find_newer o e ≡ some none)
      ⊎ ((rewrite_target find_newer o e ≡ some (some MaybeZeroOid.zero))
          ⊎ ((f : Follows o e) × (rewrite_target find_newer o e
                ≡ or_this f.new (find_newer f.new))))
unfolding rewrite_target
rewrite_target-cases find_newer o (rewrite_event t tx MaybeZeroOid.zero new) = inl refl
rewrite_target-cases find_newer o (rewrite_event t tx (non_zero old) MaybeZeroOid.zero) =
    elim (Bool-cases (old == o)) [ inl same ↦ inr (inl (rw same)) | inr other ↦ inl (rw other) ]
rewrite_target-cases find_newer o (rewrite_event t tx (non_zero old) (non_zero new)) =
    elim (Bool-cases (old == o)) [
      | inr other ↦ inl (rw other)
      | inl same ↦ elim (Bool-cases (new == o)) [
        | inl back ↦ inl (rw (same, back))
        | inr away ↦
            let e = (==_iff old o).0 same in
            inr (
              inr (
                record {
                  time = t;
                  tx = tx;
                  new = new;
                  is_rewrite = rw e;
                  changes = λ q. cc ((==_iff new o).1 q);
                },
                rw (same, away),
              ))
      ]
    ]
rewrite_target-cases find_newer o (ref_update_event _ _ _ _ _ _) = inl refl
rewrite_target-cases find_newer o (commit_event _ _ _) = inl refl
rewrite_target-cases find_newer o (obsolete_event _ _ _) = inl refl
rewrite_target-cases find_newer o (unobsolete_event _ _ _) = inl refl
rewrite_target-cases find_newer o (working_copy_snapshot _ _ _ _ _) = inl refl

pub or_this_cases :
    (new t : NonZeroOid) (x : Option (Option MaybeZeroOid))
    → or_this new x ≡ some (some (non_zero t))
    → (t ≡ new) ⊎ (x ≡ some (some (non_zero t)))
or_this_cases new t none h = cc
or_this_cases new t (some none) h = inl (ground arith)
or_this_cases new t (some (some newer)) h = inr h

pub or_this-some :
    (new : NonZeroOid) {x : Option (Option MaybeZeroOid)}
    → (y : Option MaybeZeroOid) × (x ≡ some y)
    → (z : Option MaybeZeroOid) × (or_this new x ≡ some z)
or_this-some new (none, e) = (some (non_zero new), rw e)
or_this-some new (some newer, e) = (some newer, rw e)
