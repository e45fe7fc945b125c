-- ===== src/Bisect/Basic/Midpoint.antt =====
-- scm-bisect/src/basic.rs: the midpoint and the bounds.
use git_branchless.Prelude.{
  ℕ, zero, suc, ◌/◌, ◌<◌, ◌≡◌, ◌≢◌, refl, ◌⊎◌, inl, inr, Option, none, some, Option-cases, Bool,
  true, false, Bool-cases, not, ◌&&◌, ◌||◌, ◌==◌, ==_iff, ==_self, EqTest, List, [], ◌∷◌, keep,
  arith, get_elem?, last?, length, ltb, Result, ok, Result-cases, contains, set_insert,
  contains-set_insert, contains-keep, contains-keep_sound,
}
use git_branchless.Prelude.Map.{Map, lookup, IsUnique}
use git_branchless.Bisect.{Status, untested, status_eq, Bounds, nodes_with}
use git_branchless.Bisect.Notify.{contains-nodes_with, nodes_with-lookup}
use git_branchless.Bisect.Basic.{
  BasicSourceControlGraph, extend, union_all, ancestors_all, descendants_all, is_ancestor,
  BasicStrategyKind, linear, linear_reverse, binary, choose, midpoint,
}
use git_branchless.Bisect.Basic.Covers.{related, IsDag}

module _ {Node : Type 0} ⦃eq : EqTest Node⦄ where
  contains-extend :
      (set xs : List Node) (a : Node)
      → contains (extend set xs) a ≡ (contains set a || contains xs a)
  unfolding extend
  contains-extend set [] a = ground arith
  contains-extend set (x ∷ xs) a =
      rw (contains-extend (set_insert x set) xs a, contains-set_insert x a set) (ground arith)

  contains-get_elem? :
      (xs : List Node) (i : ℕ) (a : Node) → get_elem? xs i ≡ some a → contains xs a ≡ true
  contains-get_elem? [] i a h = cc
  contains-get_elem? (x ∷ xs) zero a h = ground (arith, ==_self a)
  contains-get_elem? (x ∷ xs) (suc i) a h = ground (arith, contains-get_elem? xs i a h)

  contains-last? : (xs : List Node) (a : Node) → last? xs ≡ some a → contains xs a ≡ true
  contains-last? [] a h = cc
  contains-last? (x ∷ xs) a h = elim (Option-cases (last? xs)) [
    | inl ends ↦ ground (arith, ==_self a)
    | inr (y, more) ↦ ground (arith, contains-last? xs a)
  ]

  get_elem?-some : (xs : List Node) (i : ℕ) → i < length xs → get_elem? xs i ≢ none
  get_elem?-some [] i h = absurd (omega arith)
  get_elem?-some (x ∷ xs) zero h = λ e. absurd (cc e)
  get_elem?-some (x ∷ xs) (suc i) h = get_elem?-some xs i (omega arith)

  contains-choose :
      (strategy : BasicStrategyKind) (xs : List Node) (a : Node)
      → choose strategy xs ≡ some a
      → contains xs a ≡ true
  unfolding choose
  contains-choose linear xs a h = contains-get_elem? xs 0 a h
  contains-choose linear_reverse xs a h = contains-last? xs a h
  contains-choose binary xs a h = elim (Bool-cases (ltb (length xs / 2) (length xs))) [
    | inl within ↦ contains-get_elem? xs (length xs / 2) a (rw within at h)
    | inr beyond ↦ absurd (ground arith)
  ]

  last?-some : (x : Node) (xs : List Node) → last? (x ∷ xs) ≢ none
  last?-some x xs h = elim (Option-cases (last? xs)) [
    | inl ends ↦ absurd (ground arith)
    | inr (y, more) ↦ absurd (ground arith)
  ]

  -- a strategy gives up only when nothing is left
  choose-none :
      (strategy : BasicStrategyKind) (xs : List Node) → choose strategy xs ≡ none → xs ≡ []
  unfolding choose
  choose-none strategy [] h = refl
  choose-none linear (x ∷ xs) h = cc
  choose-none linear_reverse (x ∷ xs) h = absurd (last?-some x xs h)
  choose-none binary (x ∷ xs) h =
      absurd (get_elem?-some (x ∷ xs) (length (x ∷ xs) / 2) (omega arith) (ground arith))

module _ {Node Error : Type 0} ⦃eq : EqTest Node⦄ (walk : Node → Result Error (List Node)) where
  -- the union holds the set, and what the walk from each node finds
  union_all_complete :
      (set nodes all : List Node)
      → union_all walk set nodes ≡ ok all
      → (x : Node)
      → (contains set x ≡ true → contains all x ≡ true)
        × ((b : Node)
            → contains nodes b ≡ true
            → (found : List Node) × (walk b ≡ ok found)
              × (contains found x ≡ true → contains all x ≡ true))
  unfolding union_all
  union_all_complete set [] all h x = (λ m. ground arith, λ b m. absurd (cc m))
  union_all_complete set (n ∷ nodes) all h x = elim (Result-cases (walk n)) [
    | inr (e, bad) ↦ absurd (ground arith)
    | inl (found, fine) ↦
        let (kept, others) =
          union_all_complete (extend set found) nodes all (rw (fine, union_all) at h) x in
        let in_extended = contains-extend set found x in
        (
          λ m. kept (rw (in_extended, m)),
          λ b m. elim (Bool-cases (n == b)) [
            | inl is_b ↦
                let same : n ≡ b = (==_iff n b).0 is_b in
                (found, rw (← same) fine, λ inside. kept (ground arith))
            | inr not_b ↦ others b (rw not_b at m)
          ],
        )
  ]

  union_all_sound :
      (set nodes all : List Node)
      → union_all walk set nodes ≡ ok all
      → (x : Node) → contains all x ≡ true
      → (contains set x ≡ true)
        ⊎ ((b : Node) × (contains nodes b ≡ true) × (related walk x b ≡ ok true))
  unfolding union_all
  union_all_sound set [] all h x m = let same : set ≡ all = ground arith in inl (rw same m)
  union_all_sound set (n ∷ nodes) all h x m = elim (Result-cases (walk n)) [
    | inr (e, bad) ↦ absurd (ground arith)
    | inl (found, fine) ↦
        let in_extended = contains-extend set found x in
        elim (union_all_sound (extend set found) nodes all (rw (fine, union_all) at h) x m) [
          | inr (b, within, reached) ↦ inr (b, ground arith, reached)
          | inl inside ↦ elim (Bool-cases (contains set x)) [
            | inl old ↦ inl old
            | inr new ↦
                let here : contains found x ≡ true = ground arith in
                inr (n, rw (==_self n) refl, rw (fine, here) refl)
          ]
        ]
  ]

module _ {Node Error : Type 0} ⦃eq : EqTest Node⦄ (strategy : BasicStrategyKind)
    (graph : BasicSourceControlGraph Node Error) (dag : IsDag graph) (bounds : Bounds Node)
    (statuses : Map Node Status) where
  abbrev is_open : List Node → List Node → Node → Bool
  is_open implied_success implied_failure node =
      not (contains implied_success node) && not (contains implied_failure node)

  midpoint_parts :
      (found : Option Node)
      → midpoint strategy graph bounds statuses ≡ ok found
      → (successes : List Node) × (failures : List Node) × (ancestors_all graph bounds.success_bound
          ≡ ok successes)
        × (descendants_all graph bounds.failure_bound ≡ ok failures)
        × (choose strategy (keep (is_open successes failures) (nodes_with untested statuses))
            ≡ found)
  unfolding midpoint
  midpoint_parts found h = elim (Result-cases (ancestors_all graph bounds.success_bound)) [
    | inr (e, bad) ↦ absurd (ground arith)
    | inl (successes, fine) ↦ elim (Result-cases (descendants_all graph bounds.failure_bound)) [
      | inr (e, bad) ↦ absurd (ground arith)
      | inl (failures, good) ↦ (successes, failures, fine, good, ground arith)
    ]
  ]

  -- A midpoint is an untested node of the search that the bounds leave open: it is no ancestor of a
  -- success bound, and no failure bound is an ancestor of it.
  pub midpoint_lem :
      (node : Node)
      → IsUnique statuses
      → midpoint strategy graph bounds statuses ≡ ok (some node)
      → (lookup node statuses ≡ some untested)
        × ((b : Node)
            → contains bounds.success_bound b ≡ true
            → is_ancestor graph node b ≡ ok false)
        × ((f : Node) → contains bounds.failure_bound f ≡ true → is_ancestor graph f node ≢ ok true)
  unfolding ancestors_all descendants_all is_ancestor
  midpoint_lem node unique h =
      let (successes, failures, ups, downs, chosen) = midpoint_parts (some node) h in
      let rest = nodes_with untested statuses in
      let within = contains-choose strategy (keep (is_open successes failures) rest) node chosen in
      let (listed, left_open) = contains-keep_sound (is_open successes failures) rest node within in
      let not_up : contains successes node ≡ false = ground arith in
      let not_down : contains failures node ≡ false = ground arith in
      (
        nodes_with-lookup untested node statuses unique listed,
        λ b m.
            let (found, walked, kept) =
              (union_all_complete graph.ancestors [] bounds.success_bound successes ups node).1 b
                m in
            elim (Bool-cases (contains found node)) [
              | inl inside ↦ absurd (cc (kept inside, not_up))
              | inr outside ↦ rw (walked, outside) refl
            ],
        λ f m above.
            let (found, walked, kept) =
              (union_all_complete graph.descendants [] bounds.failure_bound failures downs node).1 f
                m in
            absurd (cc (kept (dag.ancestors-descendants f node found above walked), not_down)),
      )

  -- Where there is no midpoint, the bounds decide every untested node: it is an ancestor of a success
  -- bound, or a failure bound is an ancestor of it.
  pub midpoint-none :
      midpoint strategy graph bounds statuses ≡ ok none
      → (node : Node) → lookup node statuses ≡ some untested
      → ((b : Node) × (contains bounds.success_bound b ≡ true)
          × (is_ancestor graph node b ≡ ok true))
        ⊎ ((f : Node) × (contains bounds.failure_bound f ≡ true)
            × (is_ancestor graph f node ≡ ok true))
  unfolding ancestors_all descendants_all is_ancestor
  midpoint-none h node there =
      let (successes, failures, ups, downs, chosen) = midpoint_parts none h in
      let rest = nodes_with untested statuses in
      let empty = choose-none strategy (keep (is_open successes failures) rest) chosen in
      let listed = contains-nodes_with untested node statuses there in
      elim (Bool-cases (contains successes node)) [
        | inl up ↦
            elim (union_all_sound graph.ancestors [] bounds.success_bound successes ups node up) [
              | inl nothing ↦ absurd (cc nothing)
              | inr found ↦ inl found
            ]
        | inr not_up ↦ elim (Bool-cases (contains failures node)) [
          | inl down ↦
              elim (union_all_sound graph.descendants [] bounds.failure_bound failures downs node
                down) [
                  | inl nothing ↦ absurd (cc nothing)
                  | inr (f, within, reached) ↦
                      inr (f, within, dag.descendants-ancestors f node reached)
                ]
          | inr not_down ↦
              let stays =
                contains-keep (is_open successes failures) rest node listed
                  (rw (not_up, not_down) refl) in
              absurd (cc (rw empty at stays))
        ]
      ]
