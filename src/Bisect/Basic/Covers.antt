-- ===== src/Bisect/Basic/Covers.antt =====
-- scm-bisect/src/basic.rs: the heads and the roots of a set of nodes.
use git_branchless.Prelude.{
  ◌≡◌, refl, inl, inr, Bool, true, Bool-cases, ◌==◌, ==_iff, ==_self, EqTest, List, [], ◌∷◌, keep,
  arith, Result, ok, ◌>>=◌, collect, Result-cases, contains, contains-keep, contains-keep_sound,
}
use git_branchless.Prelude.Map.{Map}
use git_branchless.Bisect.Notify.{IsLawful}
use git_branchless.Bisect.Notify.Refusals.{IsFilter}
use git_branchless.Bisect.Basic.{
  BasicSourceControlGraph, is_extreme, ancestor_heads, descendant_roots, is_ancestor, as_graph,
}

module _ {Node Error : Type 0} ⦃eq : EqTest Node⦄ where
  -- whether the walk from `b` finds `a`
  abbrev pub related : (Node → Result Error (List Node)) → Node → Node → Result Error Bool
  related walk a b = walk b >>= λ found. ok (contains found a)

  -- The walk is along a partial order, where it succeeds.
  pub record IsOrder (walk : Node → Result Error (List Node)) : Type 0 where
    pub related-refl : (a : Node) (found : List Node) → walk a ≡ ok found → contains found a ≡ true
    pub related-trans :
        (a b c : Node)
        → related walk a b ≡ ok true
        → related walk b c ≡ ok true
        → related walk a c ≡ ok true
    pub related-antisym :
        (a b : Node) → related walk a b ≡ ok true → related walk b a ≡ ok true → a ≡ b

  -- The documented behaviour of `ancestors` and `descendants`: both walk along the order of the
  -- graph, in opposite directions.
  pub record IsDag (graph : BasicSourceControlGraph Node Error) : Type 0 where
    pub ancestors_order : IsOrder graph.ancestors
    pub descendants_order : IsOrder graph.descendants
    pub descendants-ancestors :
        (a b : Node)
        → related graph.descendants b a ≡ ok true
        → related graph.ancestors a b ≡ ok true
    pub ancestors-descendants :
        (a b : Node) (below : List Node)
        → related graph.ancestors a b ≡ ok true
        → graph.descendants a ≡ ok below
        → contains below b ≡ true

  abbrev pairs_with :
      (Node → Result Error (List Node)) → List Node → Result Error (Map Node (List Node))
  pairs_with walk nodes = collect (λ node. walk node >>= λ found. ok (node, found)) nodes

  -- a candidate that no element is strictly above
  abbrev IsTop : (Node → Result Error (List Node)) → List Node → Node → Type 0
  IsTop walk ns b = (c : Node) → contains ns c ≡ true → related walk b c ≡ ok true → b ≡ c

module _ {Node Error : Type 0} ⦃eq : EqTest Node⦄ (walk : Node → Result Error (List Node)) where
  pairs_with-cons :
      (x : Node) (xs : List Node) (pairs : Map Node (List Node))
      → pairs_with walk (x ∷ xs) ≡ ok pairs
      → (found : List Node) × (rest : Map Node (List Node)) × (walk x ≡ ok found)
        × (pairs_with walk xs ≡ ok rest)
        × ((x, found) ∷ rest ≡ pairs)
  pairs_with-cons x xs pairs h = elim (Result-cases (walk x)) [
    | inr (e, bad) ↦ absurd (ground arith)
    | inl (found, fine) ↦ elim (Result-cases (pairs_with walk xs)) [
      | inr (e, bad) ↦ absurd (ground arith)
      | inl (rest, rests) ↦ (found, rest, fine, rests, ground arith)
    ]
  ]

  walks :
      (xs : List Node) (pairs : Map Node (List Node))
      → pairs_with walk xs ≡ ok pairs
      → (n : Node) → contains xs n ≡ true
      → (found : List Node) × (walk n ≡ ok found)
  walks [] pairs h n m = absurd (cc m)
  walks (x ∷ xs) pairs h n m =
      let (found, rest, fine, rests, e) = pairs_with-cons x xs pairs h in
      elim (Bool-cases (x == n)) [
        | inl is_n ↦ (found, rw (← (==_iff x n).0 is_n) fine)
        | inr not_n ↦ walks xs rest rests n (rw not_n at m)
      ]

  extreme :
      (xs : List Node) (pairs : Map Node (List Node))
      → pairs_with walk xs ≡ ok pairs
      → (b : Node) → IsTop walk xs b
      → is_extreme pairs b ≡ true
  extreme [] pairs h b top = let e : [] ≡ pairs = ground arith in rw (← e) refl
  extreme (x ∷ xs) pairs h b top =
      let (found, rest, fine, rests, e) = pairs_with-cons x xs pairs h in
      let above : is_extreme rest b ≡ true =
        extreme xs rest rests b (λ c m r. top c (ground (arith)) r) in
      elim (Bool-cases (b == x)) [
        | inl is_x ↦ rw (← e, is_x) above
        | inr not_x ↦ elim (Bool-cases (contains found b)) [
          | inl inside ↦
              let same = top x (rw (==_self x) refl) (rw (fine, inside) refl) in
              absurd (cc (not_x, (==_iff b x).1 same))
          | inr outside ↦ rw (← e, not_x, outside) above
        ]
      ]

  module _ (order : IsOrder walk) where
    find-IsTop :
        (xs : List Node) (pairs : Map Node (List Node))
        → pairs_with walk xs ≡ ok pairs
        → (n : Node) (found : List Node) → walk n ≡ ok found
        → (b : Node) × (contains (n ∷ xs) b ≡ true) × (related walk n b ≡ ok true) × IsTop walk xs b
    find-IsTop [] pairs h n found w =
        (n, rw (==_self n) refl, rw (w, order.related-refl n found w) refl, λ c m r. absurd (cc m))
    find-IsTop (x ∷ xs) pairs h n found w =
        let (above, rest, fine, rests, e) = pairs_with-cons x xs pairs h in
        elim (Bool-cases (contains above n)) [
          | inl higher ↦
              let step : related walk n x ≡ ok true = rw (fine, higher) refl in
              let (b, within, up, top) = find-IsTop xs rest rests x above fine in
              (
                b,
                ground arith,
                order.related-trans n x b step up,
                λ c m r. elim (Bool-cases (x == c)) [
                  | inl is_c ↦
                      let is_x : x ≡ c = (==_iff x c).0 is_c in
                      order.related-antisym b c r (rw (← is_x) up)
                  | inr not_c ↦ top c (rw not_c at m) r
                ],
              )
          | inr aside ↦
              let (b, within, up, top) = find-IsTop xs rest rests n found w in
              (
                b,
                ground arith,
                up,
                λ c m r. elim (Bool-cases (x == c)) [
                  | inl is_c ↦
                      let is_x : x ≡ c = (==_iff x c).0 is_c in
                      let above_n : related walk n x ≡ ok true =
                        order.related-trans n b x up (rw is_x r) in
                      absurd (cc (rw (fine, aside) at above_n))
                  | inr not_c ↦ top c (rw not_c at m) r
                ],
              )
        ]

    covered :
        (ns : List Node) (pairs : Map Node (List Node))
        → pairs_with walk ns ≡ ok pairs
        → (n : Node) → contains ns n ≡ true
        → (b : Node) × (contains (keep (is_extreme pairs) ns) b ≡ true)
          × (related walk n b ≡ ok true)
    covered ns pairs h n m =
        let (found, w) = walks ns pairs h n m in
        let (b, within, up, top) = find-IsTop ns pairs h n found w in
        let inside : contains ns b ≡ true = elim (Bool-cases (n == b)) [
          | inl is_b ↦ rw (← (==_iff n b).0 is_b) m
          | inr not_b ↦ rw not_b at within
        ] in
        (b, contains-keep (is_extreme pairs) ns b inside (extreme ns pairs h b top), up)

module _ {Node Error : Type 0} ⦃eq : EqTest Node⦄ where
  -- The graph of ancestors and descendants is what `Search` relies on: `is_ancestor` is transitive,
  -- every node of a set is an ancestor of one of its heads, and a descendant of one of its roots.
  pub as_graph-IsLawful :
      (graph : BasicSourceControlGraph Node Error) → IsDag graph → IsLawful (as_graph graph)
  unfolding is_ancestor ancestor_heads descendant_roots
  as_graph-IsLawful graph dag = record {
    is_ancestor-trans = dag.ancestors_order.related-trans;
    success-covered = λ ns bounds h n m. elim (Result-cases (pairs_with graph.ancestors ns)) [
      | inr (e, bad) ↦ absurd (ground arith)
      | inl (pairs, fine) ↦
          let is_bounds : keep (is_extreme pairs) ns ≡ bounds = ground arith in
          rw (← is_bounds) (covered graph.ancestors dag.ancestors_order ns pairs fine n m)
    ];
    failure-covered = λ ns bounds h n m. elim (Result-cases (pairs_with graph.descendants ns)) [
      | inr (e, bad) ↦ absurd (ground arith)
      | inl (pairs, fine) ↦
          let is_bounds : keep (is_extreme pairs) ns ≡ bounds = ground arith in
          let (b, within, up) = covered graph.descendants dag.descendants_order ns pairs fine n m in
          rw (← is_bounds) (b, within, dag.descendants-ancestors b n up)
    ];
  }

  -- Heads and roots are filtered from the nodes.
  pub as_graph-IsFilter : (graph : BasicSourceControlGraph Node Error) → IsFilter (as_graph graph)
  unfolding ancestor_heads descendant_roots
  as_graph-IsFilter graph = record {
    success-within = λ ns bounds h b m. elim (Result-cases (pairs_with graph.ancestors ns)) [
      | inr (e, bad) ↦ absurd (ground arith)
      | inl (pairs, fine) ↦
          let is_bounds : keep (is_extreme pairs) ns ≡ bounds = ground arith in
          (contains-keep_sound (is_extreme pairs) ns b (rw is_bounds m)).0
    ];
    failure-within = λ ns bounds h b m. elim (Result-cases (pairs_with graph.descendants ns)) [
      | inr (e, bad) ↦ absurd (ground arith)
      | inl (pairs, fine) ↦
          let is_bounds : keep (is_extreme pairs) ns ≡ bounds = ground arith in
          (contains-keep_sound (is_extreme pairs) ns b (rw is_bounds m)).0
    ];
  }
