-- ===== src/Rewrite/Ends.antt =====
-- evolve.rs: the end and the result of the search for the newest version.
use mathlib.Core.Path.{subst}
use native.Mathlib.Nat.{sub-zero}
use git_branchless.Prelude.{
  ℕ, zero, suc, ◌+◌, ◌<◌, ◌≤◌, ◌≡◌, ◌≢◌, sym, ◌∙◌, Option, none, some, Option-cases, true,
  Bool-cases, inl, inr, nat_eq, ◌==◌, List, length, take, get_elem?, arith,
}
use git_branchless.Oid.{NonZeroOid, MaybeZeroOid, non_zero, oid_eq}
use git_branchless.EventLog.{ReferenceName, EventTransactionId, Event, rewrite_event}
use git_branchless.Replay.{EventCursor, EventReplayer, from_events}
use git_branchless.Replay.Status.Latest.{mentions, last_mention, last_mention_at, last_mention_max}
use git_branchless.Rewrite.{rewrite_target, find_rewrite_target}
use git_branchless.Rewrite.Chain.{
  search_in, search_in_lem, mentions_new, stops, rewrite_target-cases, or_this_cases, or_this-some,
  Follows,
}

module _ (es : List Event) where
  -- the last mention of the new commit is no earlier
  later :
      (o : NonZeroOid) (k : ℕ) (e : Event) (f : Follows o e)
      → last_mention 0 es o ≡ some (k, e)
      → (j : ℕ) × (d : Event) × (last_mention 0 es f.new ≡ some (j, d)) × (k ≤ j)
  later o k e f h =
      let (_, _, there, _) = last_mention_at 0 es o k e h in
      let (j, d, found, after) =
        last_mention_max 0 es f.new k e (rw sub-zero at there)
          (rw f.is_rewrite (mentions_new f.time f.tx (non_zero o) f.new)) in
      (j, d, found, omega arith)

  search_step :
      (fuel : ℕ) (o : NonZeroOid) (k : ℕ) (e : Event)
      → last_mention 0 es o ≡ some (k, e)
      → search_in (suc fuel) es o ≡ rewrite_target (λ new. search_in fuel es new) o e
  unfolding search_in
  search_step fuel o k e h = rw (h, search_in)

  -- two mentions at one place are one event
  same_event :
      (o p : NonZeroOid) (k j : ℕ) (e d : Event)
      → last_mention 0 es o ≡ some (k, e)
      → last_mention 0 es p ≡ some (j, d)
      → k ≡ j
      → e ≡ d
  same_event o p k j e d h g same =
      let (_, _, at_k, _) = last_mention_at 0 es o k e h in
      let (_, _, at_j, _) = last_mention_at 0 es p j d g in cc (at_k, at_j, same)

  -- with no later event, the new commit is the newest
  newest :
      (fuel : ℕ) (o : NonZeroOid) (k j : ℕ) (e d : Event) (f : Follows o e)
      → last_mention 0 es o ≡ some (k, e)
      → last_mention 0 es f.new ≡ some (j, d)
      → k ≡ j
      → 0 < fuel
      → search_in fuel es f.new ≡ some none
  newest zero o k j e d f h g same lt = absurd (omega arith)
  newest (suc fuel) o k j e d f h g same lt =
      let one = same_event o f.new k j e d h g same in
      search_step fuel f.new j d g
      ∙ rw (← one, f.is_rewrite) (stops _ f.time f.tx o f.new f.new (λ q. f.changes (sym q)))

  search_ends :
      (fuel : ℕ) (o : NonZeroOid) (k : ℕ) (e : Event)
      → last_mention 0 es o ≡ some (k, e)
      → length es < fuel + k
      → (x : Option MaybeZeroOid) × (search_in fuel es o ≡ some x)
  search_ends zero o k e h lt =
      let (_, high, _, _) = last_mention_at 0 es o k e h in absurd (omega arith)
  search_ends (suc fuel) o k e h lt =
      rw (search_step fuel o k e h)
        (elim (rewrite_target-cases (λ new. search_in fuel es new) o e) [
          | inl stopped ↦ (none, stopped)
          | inr (inl deleted) ↦ (some MaybeZeroOid.zero, deleted)
          | inr (inr (f, goes_on)) ↦
              let (j, d, found, after) = later o k e f h in
              let (_, high, _, _) = last_mention_at 0 es o k e h in
              rw goes_on (elim (Bool-cases (k == j)) [
                | inl same ↦
                    let same' : k ≡ j = ground arith in
                    (
                      some (non_zero f.new),
                      rw (newest fuel o k j e d f h found same' (omega arith)),
                    )
                | inr apart ↦
                    let before : k < j = ground arith in
                    or_this-some f.new (search_ends fuel f.new j d found (omega arith))
              ])
        ])

  -- The commit that is returned was made by a rewrite no earlier than the last mention of `o`.
  record MadeBy (t : NonZeroOid) (k : ℕ) : Type 0 where
    index : ℕ
    time : ℕ
    tx : EventTransactionId
    old : MaybeZeroOid
    after : k ≤ index
    there : get_elem? es index ≡ some (rewrite_event time tx old (non_zero t))

  made_later :
      (fuel : ℕ) (o t : NonZeroOid) (k : ℕ) (e : Event)
      → last_mention 0 es o ≡ some (k, e)
      → search_in fuel es o ≡ some (some (non_zero t))
      → MadeBy t k
  made_later zero o t k e h r = absurd (unfold search_in in cc r)
  made_later (suc fuel) o t k e h r =
      let r' = sym (search_step fuel o k e h) ∙ r in
      elim (rewrite_target-cases (λ new. search_in fuel es new) o e) [
        | inl stopped ↦ absurd (cc (stopped, r'))
        | inr (inl deleted) ↦ absurd (cc (deleted, r'))
        | inr (inr (f, goes_on)) ↦
            let (j, d, found, after) = later o k e f h in
            let (_, _, there, _) = last_mention_at 0 es o k e h in
            elim (or_this_cases f.new t (search_in fuel es f.new) (sym goes_on ∙ r')) [
              | inl this ↦ record {
                index = k;
                time = f.time;
                tx = f.tx;
                old = non_zero o;
                after = omega arith;
                there = rw (this, ← f.is_rewrite) (rw sub-zero at there);
              }
              | inr newer ↦
                  let m = made_later fuel f.new t j d found newer in
                  record {
                    index = m.index;
                    time = m.time;
                    tx = m.tx;
                    old = m.old;
                    after = omega (arith, m.after);
                    there = m.there;
                  }
            ]
      ]

  -- The rewrite that made `t` is not the last mention of `o`, if that leads elsewhere.
  made_elsewhere :
      (o t : NonZeroOid) (k : ℕ) (e : Event)
      → last_mention 0 es o ≡ some (k, e)
      → Follows o e
      → MadeBy t k
      → t ≢ o
  made_elsewhere o t k e h f m same =
      let (_, _, there, _) = last_mention_at 0 es o k e h in
      let (k', e', again, bound) = last_mention_max 0 es o m.index _ m.there (
        subst (λ p. mentions (rewrite_event m.time m.tx m.old (non_zero t)) p ≡ true) same
          (mentions_new m.time m.tx m.old t)) in
      let same_k : k' ≡ k = ground (arith, h, again) in
      let same_place : m.index ≡ k = omega (arith, m.after) in
      let at_k : get_elem? es k ≡ some e = rw sub-zero at there in
      let one : e ≡ rewrite_event m.time m.tx m.old (non_zero t) = cc (m.there, at_k, same_place) in
      f.changes (cc (one, f.is_rewrite, same))

  not_itself :
      (fuel : ℕ) (o t : NonZeroOid) (k : ℕ) (e : Event)
      → last_mention 0 es o ≡ some (k, e)
      → search_in (suc fuel) es o ≡ some (some (non_zero t))
      → t ≢ o
  not_itself fuel o t k e h r =
      let r' = sym (search_step fuel o k e h) ∙ r in
      elim (rewrite_target-cases (λ new. search_in fuel es new) o e) [
        | inl stopped ↦ absurd (cc (stopped, r'))
        | inr (inl deleted) ↦ absurd (cc (deleted, r'))
        | inr (inr (f, _)) ↦ made_elsewhere o t k e h f (made_later (suc fuel) o t k e h r)
      ]

  unknown_ends :
      (fuel : ℕ) (o : NonZeroOid)
      → last_mention 0 es o ≡ none
      → 0 < fuel
      → search_in fuel es o ≡ some none
  unfolding search_in
  unknown_ends zero o h lt = absurd (omega arith)
  unknown_ends (suc fuel) o h lt = rw (h, search_in)

  unknown_target :
      (fuel : ℕ) (o t : NonZeroOid)
      → last_mention 0 es o ≡ none
      → search_in fuel es o ≢ some (some (non_zero t))
  unknown_target zero o t h r = unfold search_in in cc r
  unknown_target (suc fuel) o t h r = cc (r, unknown_ends (suc fuel) o h (omega arith))

  known_target :
      (fuel : ℕ) (o t : NonZeroOid) (k : ℕ) (e : Event)
      → last_mention 0 es o ≡ some (k, e)
      → search_in fuel es o ≡ some (some (non_zero t))
      → t ≢ o
  known_target zero o t k e h r = absurd (unfold search_in in cc r)
  known_target (suc fuel) o t k e h r = not_itself fuel o t k e h r

module _ (main : ReferenceName) (es : List Event) (cursor : EventCursor) (oid : NonZeroOid) where
  abbrev replayer : EventReplayer
  replayer = from_events main es

  -- With more fuel than there are events before the cursor, the search for the newest version of a
  -- commit ends.
  pub find_rewrite_target_ends :
      (fuel : ℕ)
      → length (take cursor.event_id replayer.events) < fuel
      → (x : Option MaybeZeroOid) × (find_rewrite_target fuel replayer cursor oid ≡ some x)
  find_rewrite_target_ends fuel lt =
      let before = take cursor.event_id replayer.events in
      rw (search_in_lem main es cursor fuel oid) (elim (Option-cases (last_mention 0 before oid)) [
        | inr ((k, e), found) ↦ search_ends before fuel oid k e found (omega arith)
        | inl unknown ↦ (none, unknown_ends before fuel oid unknown (omega arith))
      ])

  -- The newest version of a commit that the search finds is never the commit itself.
  pub find_rewrite_target-ne :
      (fuel : ℕ) (target : NonZeroOid)
      → find_rewrite_target fuel replayer cursor oid ≡ some (some (non_zero target))
      → target ≢ oid
  find_rewrite_target-ne fuel target r =
      let before = take cursor.event_id replayer.events in
      let r' = sym (search_in_lem main es cursor fuel oid) ∙ r in
      elim (Option-cases (last_mention 0 before oid)) [
        | inr ((k, e), found) ↦ known_target before fuel oid target k e found r'
        | inl unknown ↦ absurd (unknown_target before fuel oid target unknown r')
      ]
