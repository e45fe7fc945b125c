-- ===== src/Plan/Graph.antt =====
-- git-branchless-lib/src/core/rewrite/plan.rs: `ConstraintGraph`.
-- The permissions and the commit graph are arguments; a set that the source iterates without sorting
-- is in the order of the list.
use git_branchless.Prelude.{
  ℕ, zero, suc, Option, none, some, Bool, true, false, not, ◌&&◌, ◌==◌, if◌then◌else◌, List, [],
  ◌∷◌, ◌++◌, map, Result, ok, err, ◌>>=◌, keep, contains, set_insert, leb, ltb, nat_eq,
}
use git_branchless.Prelude.Map.{Map, lookup, update_entry}
use git_branchless.Oid.{NonZeroOid, oid_eq}
use git_branchless.Plan.{
  Constraint, move_children, move_subtree, fix_up_commit, Failure, out_of_fuel, Dag, difference,
  reported,
}

pub record ConstraintGraph : Type 0 where
  -- from a commit to those that must be applied after it
  pub inner : Map NonZeroOid (List NonZeroOid)
  -- from a commit to those that are absorbed into it
  pub fixups : Map NonZeroOid (List NonZeroOid)

-- `ConstraintGraph::new`
abbrev pub empty_graph : ConstraintGraph
empty_graph = record { inner = []; fixups = [] }

-- `keys()`
abbrev pub keys : Map NonZeroOid (List NonZeroOid) → List NonZeroOid
keys [] = []
keys ((k, _) ∷ m) = k ∷ keys m

-- `values().flatten()`, with repetitions
abbrev pub all_values : Map NonZeroOid (List NonZeroOid) → List NonZeroOid
all_values [] = []
all_values ((_, vs) ∷ m) = vs ++ all_values m

abbrev pub parents : ConstraintGraph → List NonZeroOid
parents g = keys g.inner

abbrev pub commits_to_move : ConstraintGraph → List NonZeroOid
commits_to_move g = all_values g.inner

abbrev pub commits_to_move_to : ConstraintGraph → NonZeroOid → Option (List NonZeroOid)
commits_to_move_to g parent_oid = lookup parent_oid g.inner

abbrev pub commits_to_fixup : ConstraintGraph → List NonZeroOid
commits_to_fixup g = keys g.fixups

abbrev pub fixup_commits : ConstraintGraph → List NonZeroOid
fixup_commits g = all_values g.fixups

-- `for commits in self.inner.values_mut() { commits.remove(child_oid); }`
abbrev pub remove_child :
    NonZeroOid → Map NonZeroOid (List NonZeroOid) → Map NonZeroOid (List NonZeroOid)
remove_child child_oid [] = []
remove_child child_oid ((k, vs) ∷ m) =
    (k, keep (λ v. not (v == child_oid)) vs) ∷ remove_child child_oid m

-- the edges from the parents to a child
abbrev pub add_edges :
    List NonZeroOid
    → NonZeroOid
    → Map NonZeroOid (List NonZeroOid)
    → Map NonZeroOid (List NonZeroOid)
add_edges [] child_oid m = m
add_edges (p ∷ ps) child_oid m = add_edges ps child_oid (update_entry p (set_insert child_oid) m)

-- the edges from a parent to the children
abbrev pub add_children :
    NonZeroOid
    → List NonZeroOid
    → Map NonZeroOid (List NonZeroOid)
    → Map NonZeroOid (List NonZeroOid)
add_children parent_oid [] m = m
add_children parent_oid (c ∷ cs) m =
    add_children parent_oid cs (update_entry parent_oid (set_insert c) m)

-- the first pass of `add_constraints`
unfoldable pub add_moves : ConstraintGraph → List Constraint → ConstraintGraph
add_moves g [] = g
add_moves g (move_children _ _ ∷ cs) = add_moves g cs
add_moves g (move_subtree parent_oids child_oid ∷ cs) =
    add_moves
      (record g { inner = add_edges parent_oids child_oid (remove_child child_oid g.inner) }) cs
add_moves g (fix_up_commit commit_to_fixup_oid fixup_commit_oid ∷ cs) =
    add_moves
      (record g {
        inner = remove_child fixup_commit_oid g.inner;
        fixups = update_entry commit_to_fixup_oid (set_insert fixup_commit_oid) g.fixups;
      })
      cs

unfoldable pub range_heads : List Constraint → List NonZeroOid
range_heads [] = []
range_heads (move_subtree _ _ ∷ cs) = range_heads cs
range_heads (move_children _ children_of_oid ∷ cs) = children_of_oid ∷ range_heads cs
range_heads (fix_up_commit _ children_of_oid ∷ cs) = children_of_oid ∷ range_heads cs

module _ {E : Type 0} (dag : Dag E) (fuel : ℕ) where
  -- the `while` loop of the closure `move_children`
  unfoldable pub unconstrained_ancestor :
      ℕ → (NonZeroOid → Bool) → NonZeroOid → Result (Failure E) NonZeroOid
  unconstrained_ancestor zero is_moved parent_oid = err out_of_fuel
  unconstrained_ancestor (suc n) is_moved parent_oid = elim (is_moved parent_oid) [
    | false ↦ ok parent_oid
    | true ↦ reported (dag.get_only_parent_oid parent_oid) >>= λ next.
        unconstrained_ancestor n is_moved next
  ]

  -- the closure `move_children`
  unfoldable pub move_children_of :
      List NonZeroOid
      → NonZeroOid
      → NonZeroOid
      → ConstraintGraph
      → Result (Failure E) ConstraintGraph
  unfolding unconstrained_ancestor
  move_children_of heads parent_of_oid children_of_oid g = do
    first_parent ← reported (dag.get_only_parent_oid parent_of_oid)
    parent_oid ←
        unconstrained_ancestor fuel (λ o. contains heads o && contains (commits_to_move g) o)
          first_parent
    children ← reported (dag.query_children (children_of_oid ∷ []))
    source_children ←
        reported (dag.filter_visible_commits (difference children (commits_to_move g)))
    ok (record g { inner = add_children parent_oid source_children g.inner })

  -- the second pass of `add_constraints`
  unfoldable pub add_child_moves :
      List NonZeroOid → ConstraintGraph → List Constraint → Result (Failure E) ConstraintGraph
  unfolding move_children_of
  add_child_moves heads g [] = ok g
  add_child_moves heads g (move_children parent_of_oid children_of_oid ∷ cs) =
      move_children_of heads parent_of_oid children_of_oid g >>= λ g'. add_child_moves heads g' cs
  add_child_moves heads g (fix_up_commit _ fixup_commit_oid ∷ cs) =
      move_children_of heads fixup_commit_oid fixup_commit_oid g >>= λ g'.
      add_child_moves heads g' cs
  add_child_moves heads g (move_subtree _ _ ∷ cs) = add_child_moves heads g cs

  unfoldable pub add_constraints :
      ConstraintGraph → List Constraint → Result (Failure E) ConstraintGraph
  unfolding add_moves range_heads add_child_moves
  add_constraints g constraints =
      add_child_moves (range_heads constraints) (add_moves g constraints) constraints

  unfoldable pub subtree_constraints : List NonZeroOid → Result (Failure E) (List Constraint)
  subtree_constraints [] = ok []
  subtree_constraints (o ∷ os) = do
    parent_oids ← reported (dag.query_parent_oids o)
    rest ← subtree_constraints os
    ok (move_subtree parent_oids o ∷ rest)

  unfoldable pub add_descendant_constraints : ConstraintGraph → Result (Failure E) ConstraintGraph
  unfolding add_constraints subtree_constraints
  add_descendant_constraints g = do
    let moved = commits_to_move g ++ commits_to_fixup g
    descendants ← reported (dag.query_descendants moved)
    visible ← reported (dag.filter_visible_commits (difference descendants moved))
    constraints ← subtree_constraints visible
    add_constraints g constraints

-- `none` is that the check passes; `set_is_empty` is the commit graph's
unfoldable pub check_permissions :
    {E : Type 0}
    → (List NonZeroOid → Result E Bool)
    → List NonZeroOid
    → ConstraintGraph
    → Result E (Option (List NonZeroOid))
check_permissions set_is_empty allowed_commits g =
    let illegal = difference (commits_to_move g) allowed_commits in
    set_is_empty illegal >>= λ empty. ok (if empty then none else some illegal)

-- `Ord` of identifiers, which the numbers that their bytes spell have too
abbrev pub insert_oid : NonZeroOid → List NonZeroOid → List NonZeroOid
insert_oid o [] = o ∷ []
insert_oid o (p ∷ ps) = if leb o.inner p.inner then o ∷ p ∷ ps else p ∷ insert_oid o ps

-- `sorted()`
unfoldable pub sort_oids : List NonZeroOid → List NonZeroOid
sort_oids [] = []
sort_oids (o ∷ os) = insert_oid o (sort_oids os)

-- the derived `Ord` of constraints: the variant first, then the fields in their order
abbrev pub same_oids : List NonZeroOid → List NonZeroOid → Bool
same_oids [] [] = true
same_oids (a ∷ xs) (b ∷ ys) = a == b && same_oids xs ys
same_oids _ _ = false

abbrev pub oids_leb : List NonZeroOid → List NonZeroOid → Bool
oids_leb [] ys = true
oids_leb (a ∷ xs) [] = false
oids_leb (a ∷ xs) (b ∷ ys) = if a == b then oids_leb xs ys else ltb a.inner b.inner

unfoldable pub constraint_leb : Constraint → Constraint → Bool
constraint_leb (move_children a b) (move_children c d) =
    if a == c then leb b.inner d.inner else ltb a.inner c.inner
constraint_leb (move_children _ _) _ = true
constraint_leb (move_subtree xs b) (move_subtree zs d) =
    if same_oids xs zs then leb b.inner d.inner else oids_leb xs zs
constraint_leb (move_subtree _ _) (fix_up_commit _ _) = true
constraint_leb (move_subtree _ _) (move_children _ _) = false
constraint_leb (fix_up_commit a b) (fix_up_commit c d) =
    if a == c then leb b.inner d.inner else ltb a.inner c.inner
constraint_leb (fix_up_commit _ _) _ = false

abbrev pub insert_constraint : Constraint → List Constraint → List Constraint
insert_constraint c [] = c ∷ []
insert_constraint c (d ∷ ds) = if constraint_leb c d then c ∷ d ∷ ds else d ∷ insert_constraint c ds

-- `sort_unstable()`
unfoldable pub sort_constraints : List Constraint → List Constraint
sort_constraints [] = []
sort_constraints (c ∷ cs) = insert_constraint c (sort_constraints cs)

-- the edges from the unconstrained commits
unfoldable pub root_edges : ConstraintGraph → List NonZeroOid → List Constraint
root_edges g [] = []
root_edges g (o ∷ os) = elim (commits_to_move_to g o) [
  | none ↦ root_edges g os
  | some children ↦ map (λ c. move_subtree (o ∷ []) c) children ++ root_edges g os
]

unfoldable pub find_roots : ConstraintGraph → List Constraint
unfolding root_edges sort_constraints
find_roots g =
    let unconstrained_fixups = difference (commits_to_fixup g) (commits_to_move g) in
    let unconstrained =
      difference (difference (parents g) (commits_to_move g)) unconstrained_fixups in
    sort_constraints
      (root_edges g unconstrained ++ map (λ o. fix_up_commit o o) unconstrained_fixups)
