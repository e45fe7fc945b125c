-- ===== src/Plan/Cycles/Verdict.antt =====
-- git-branchless-lib/src/core/rewrite/plan.rs: what `check_for_cycles` reports, and that it ends.
use git_branchless.Prelude.{
  ℕ, zero, suc, ◌+◌, ◌≤◌, ◌≡◌, ◌≢◌, refl, sym, ap, ◌∙◌, ◌⊎◌, inl, inr, true, Bool-cases, ◌==◌,
  ==_iff, ==_self, List, [], ◌∷◌, ◌++◌, contains, length, length-append, arith,
}
use git_branchless.Prelude.Map.{Map, lookup, lookup_list}
use git_branchless.Oid.{NonZeroOid, oid_eq}
use git_branchless.Plan.Graph.{
  ConstraintGraph, keys, all_values, parents, commits_to_move, sort_oids,
}
use git_branchless.Plan.Cycles.{
  CycleCheck, acyclic, exhausted, cycle, check_each, sorted_children, check_for_cycles_helper,
  nodes, cycle_fuel, check_for_cycles,
}
use git_branchless.Plan.Cycles.Pigeonhole.{
  IsDistinct, Covers, contains-append, pigeonhole, IsDistinct-snoc,
}
use git_branchless.Plan.Cycles.Walks.{
  Edge, Walk, step, onward, IsChain, contains-sort_oids, CycleCheck-cases, check_each-acyclic,
  check_each-stops, or_true, IsChain-snoc, repeated-Walk, no-Walk_back,
}

module _ (g : ConstraintGraph) where
  -- what a cycle that is reported is
  abbrev pub IsCycle : List NonZeroOid → Type 0
  IsCycle oids =
      (path : List NonZeroOid) × (o : NonZeroOid) × (oids ≡ path ++ o ∷ [])
      × (contains path o ≡ true)
      × IsChain g oids

  helper_cycle :
      (fuel : ℕ) (path : List NonZeroOid) (o : NonZeroOid) (oids : List NonZeroOid)
      → IsChain g (path ++ o ∷ [])
      → check_for_cycles_helper g fuel path o ≡ cycle oids
      → IsCycle oids
  unfolding check_for_cycles_helper
  helper_cycle zero path o oids chain h = absurd (cc h)
  helper_cycle (suc fuel) path o oids chain h = elim (Bool-cases (contains path o)) [
    | inl inside ↦
        let same : path ++ o ∷ [] ≡ oids = ground arith in
        (path, o, sym same, inside, rw (← same) chain)
    | inr outside ↦
        let check : NonZeroOid → CycleCheck =
          λ child. check_for_cycles_helper g fuel (path ++ o ∷ []) child in
        let all : check_each check (sorted_children g o) ≡ cycle oids =
          rw (outside, check_for_cycles_helper) at h in
        let (c, within, result) =
          check_each-stops check (sorted_children g o) (λ e. absurd (cc (all, e))) in
        helper_cycle fuel (path ++ o ∷ []) c oids
          (IsChain-snoc g path o c chain
            (rw (contains-sort_oids (lookup_list o g.inner) c) at within))
          (result ∙ all)
  ]

  key_of_edge :
      (m : Map NonZeroOid (List NonZeroOid)) (a b : NonZeroOid)
      → contains (lookup_list a m) b ≡ true
      → (contains (keys m) a ≡ true) × (contains (all_values m) b ≡ true)
  unfolding lookup
  key_of_edge [] a b e = absurd (cc e)
  key_of_edge ((k, vs) ∷ m) a b e = elim (Bool-cases (k == a)) [
    | inl same ↦
        let here : lookup_list a ((k, vs) ∷ m) ≡ vs = rw (lookup_list, lookup, same) in
        (rw same refl, rw (contains-append vs (all_values m) b) (rw (rw here at e) refl))
    | inr other ↦
        let there : lookup_list a ((k, vs) ∷ m) ≡ lookup_list a m =
          rw (lookup_list, lookup, other) in
        let (key, value) = key_of_edge m a b (rw there at e) in
        (
          rw (other, key) refl,
          rw (contains-append vs (all_values m) b, value) (or_true (contains vs b)),
        )
  ]

  child_in_nodes : (a b : NonZeroOid) → Edge g a b → contains (nodes g) b ≡ true
  child_in_nodes a b e =
      rw (contains-append (parents g) (commits_to_move g) b, (key_of_edge g.inner a b e).1)
        (or_true (contains (parents g) b))

  parent_in_nodes : (a : NonZeroOid) → contains (parents g) a ≡ true → contains (nodes g) a ≡ true
  parent_in_nodes a h = rw (contains-append (parents g) (commits_to_move g) a, h) refl

  Covers-snoc :
      (path : List NonZeroOid) (o : NonZeroOid)
      → Covers (nodes g) path
      → contains (nodes g) o ≡ true
      → Covers (nodes g) (path ++ o ∷ [])
  Covers-snoc path o covers here a m = elim (Bool-cases (o == a)) [
    | inl same ↦ rw (← (==_iff o a).0 same) here
    | inr other ↦ covers a (elim (Bool-cases (contains path a)) [
      | inl inside ↦ inside
      | inr outside ↦ absurd (cc (rw (contains-append path (o ∷ []) a, outside, other) at m))
    ])
  ]

  helper_ends :
      (fuel : ℕ) (path : List NonZeroOid) (o : NonZeroOid)
      → IsDistinct path
      → Covers (nodes g) path
      → contains (nodes g) o ≡ true
      → cycle_fuel g ≤ fuel + length path
      → check_for_cycles_helper g fuel path o ≢ exhausted
  unfolding check_for_cycles_helper
  helper_ends zero path o distinct covers here enough dry =
      absurd (omega (arith, enough, pigeonhole path (nodes g) distinct covers))
  helper_ends (suc fuel) path o distinct covers here enough dry =
      elim (Bool-cases (contains path o)) [
        | inl inside ↦ absurd (ground arith)
        | inr outside ↦
            let check : NonZeroOid → CycleCheck =
              λ child. check_for_cycles_helper g fuel (path ++ o ∷ []) child in
            let all : check_each check (sorted_children g o) ≡ exhausted =
              rw (outside, check_for_cycles_helper) at dry in
            let (c, within, result) =
              check_each-stops check (sorted_children g o) (λ e. absurd (cc (all, e))) in
            helper_ends fuel (path ++ o ∷ []) c (IsDistinct-snoc path o distinct outside)
              (Covers-snoc path o covers here)
              (child_in_nodes o c (rw (contains-sort_oids (lookup_list o g.inner) c) at within))
              (omega (arith, enough, length-append path (o ∷ []))) (result ∙ all)
      ]

  no_closed-Walk : check_for_cycles g ≡ acyclic → (a : NonZeroOid) → ¬ Walk g a a
  unfolding check_for_cycles
  no_closed-Walk h a walk =
      let key : contains (parents g) a ≡ true = first_key a a walk in
      let from_a =
        check_each-acyclic (λ o. check_for_cycles_helper g (cycle_fuel g) [] o)
          (sort_oids (parents g)) h a (rw (contains-sort_oids (parents g) a) key) in
      no-Walk_back g a a walk (cycle_fuel g) [] from_a (rw (==_self a) refl)
    where
      first_key : (a b : NonZeroOid) → Walk g a b → contains (parents g) a ≡ true
      first_key a b (step _ _ e) = (key_of_edge g.inner a b e).0
      first_key a b (onward _ c _ e _) = (key_of_edge g.inner a c e).0

  -- The check for cycles ends, and it passes exactly if no walk of the graph leads back to where it
  -- began: otherwise it reports a list of commits, each with an edge to the next, whose last one
  -- stands in it before.
  pub check_for_cycles_lem :
      ((check_for_cycles g ≡ acyclic) × ((a : NonZeroOid) → ¬ Walk g a a))
      ⊎ ((path : List NonZeroOid) × (o : NonZeroOid) × (check_for_cycles g ≡ cycle (path ++ o ∷ []))
          × (contains path o ≡ true)
          × IsChain g (path ++ o ∷ [])
          × Walk g o o)
  unfolding check_for_cycles
  check_for_cycles_lem =
      let check : NonZeroOid → CycleCheck = λ o. check_for_cycles_helper g (cycle_fuel g) [] o in
      elim (CycleCheck-cases (check_for_cycles g)) [
        | inl passes ↦ inl (passes, no_closed-Walk passes)
        | inr (inl dry) ↦
            let (o, within, result) =
              check_each-stops check (sort_oids (parents g)) (λ e. absurd (cc (dry, e))) in
            absurd (
              helper_ends (cycle_fuel g) [] o tt (λ a m. absurd (cc m))
                (parent_in_nodes o (rw (contains-sort_oids (parents g) o) at within)) (omega arith)
                (result ∙ dry))
        | inr (inr (oids, found)) ↦
            let (o, within, result) =
              check_each-stops check (sort_oids (parents g)) (λ e. absurd (cc (found, e))) in
            let (path, last, is_oids, again, chain) =
              helper_cycle (cycle_fuel g) [] o oids tt (result ∙ found) in
            let chain' : IsChain g (path ++ last ∷ []) = rw (← is_oids) chain in
            inr (
              path,
              last,
              found ∙ ap cycle is_oids,
              again,
              chain',
              repeated-Walk g path last chain' again,
            )
      ]
