-- ===== src/Bisect/Basic.antt =====
-- scm-bisect/src/basic.rs: graphs of ancestors and descendants, and the strategies on them.
-- A `HashSet` is the list of its elements in the order in which it is iterated.
pub mod Covers
pub mod Midpoint
pub mod Suggests
use git_branchless.Prelude.{
  ℕ, ◌/◌, ◌≡◌, Option, none, some, Bool, true, false, not, ◌&&◌, ◌==◌, EqTest, if◌then◌else◌, List,
  [], ◌∷◌, ◌++◌, map, keep, all_of, get_elem?, last?, length, Result, ok, err, ◌>>=◌, collect,
  contains, set_insert, ltb,
}
use git_branchless.Prelude.Map.{Map}
use git_branchless.Bisect.{Graph, Status, untested, status_eq, Bounds, nodes_with}

-- the required operations of the trait `BasicSourceControlGraph`
pub record BasicSourceControlGraph (Node Error : Type 0) : Type 0 where
  pub ancestors : Node → Result Error (List Node)
  pub descendants : Node → Result Error (List Node)

-- `HashSet::extend`
unfoldable pub extend : {A : Type 0} → ⦃e : EqTest A⦄ → List A → List A → List A
extend set [] = set
extend set (x ∷ xs) = extend (set_insert x set) xs

module _ {Node : Type 0} ⦃eq : EqTest Node⦄ where
  -- the `filter` of `ancestor_heads` and of `descendant_roots`
  abbrev pub is_extreme : Map Node (List Node) → Node → Bool
  is_extreme [] node = true
  is_extreme ((other_node, related) ∷ node_to_related) node =
      if node == other_node
      then is_extreme node_to_related node
      else not (contains related node) && is_extreme node_to_related node

module _ {Node Error : Type 0} ⦃eq : EqTest Node⦄ where
  -- the loop of `ancestors_all` and of `descendants_all`, over a set of each node
  unfoldable pub union_all :
      (Node → Result Error (List Node)) → List Node → List Node → Result Error (List Node)
  unfolding extend
  union_all related set [] = ok set
  union_all related set (node ∷ nodes) =
      related node >>= λ nodes_of. union_all related (extend set nodes_of) nodes

  unfoldable pub ancestors_all :
      BasicSourceControlGraph Node Error → List Node → Result Error (List Node)
  unfolding union_all
  ancestors_all graph nodes = union_all graph.ancestors [] nodes

  unfoldable pub descendants_all :
      BasicSourceControlGraph Node Error → List Node → Result Error (List Node)
  unfolding union_all
  descendants_all graph nodes = union_all graph.descendants [] nodes

  unfoldable pub ancestor_heads :
      BasicSourceControlGraph Node Error → List Node → Result Error (List Node)
  ancestor_heads graph nodes =
      collect (λ node. graph.ancestors node >>= λ ancestors. ok (node, ancestors)) nodes
      >>= λ node_to_ancestors. ok (keep (is_extreme node_to_ancestors) nodes)

  unfoldable pub descendant_roots :
      BasicSourceControlGraph Node Error → List Node → Result Error (List Node)
  descendant_roots graph nodes =
      collect (λ node. graph.descendants node >>= λ descendants. ok (node, descendants)) nodes
      >>= λ node_to_descendants. ok (keep (is_extreme node_to_descendants) nodes)

  unfoldable pub is_ancestor : BasicSourceControlGraph Node Error → Node → Node → Result Error Bool
  is_ancestor graph ancestor descendant =
      graph.ancestors descendant >>= λ ancestors. ok (contains ancestors ancestor)

  -- `impl Graph for T: BasicSourceControlGraph`
  abbrev pub as_graph : BasicSourceControlGraph Node Error → Graph Node Error
  as_graph graph = record {
    is_ancestor = is_ancestor graph;
    simplify_success_bounds = ancestor_heads graph;
    simplify_failure_bounds = descendant_roots graph;
  }

pub data BasicStrategyKind : Type 0 where
  linear linear_reverse binary : BasicStrategyKind

-- the node of the remaining ones that a strategy takes
unfoldable pub choose : {Node : Type 0} → BasicStrategyKind → List Node → Option Node
choose linear nodes_to_search = get_elem? nodes_to_search 0
choose linear_reverse nodes_to_search = last? nodes_to_search
choose binary nodes_to_search =
    let middle_index = length nodes_to_search / 2 in
    if ltb middle_index (length nodes_to_search)
    then get_elem? nodes_to_search middle_index
    else none

module _ {Node Error : Type 0} ⦃eq : EqTest Node⦄ where
  unfoldable pub midpoint :
      BasicStrategyKind
      → BasicSourceControlGraph Node Error
      → Bounds Node
      → Map Node Status
      → Result Error (Option Node)
  unfolding ancestors_all descendants_all choose
  midpoint strategy graph bounds statuses =
      ancestors_all graph bounds.success_bound >>= λ implied_success_nodes.
      descendants_all graph bounds.failure_bound >>= λ implied_failure_nodes. ok (
        choose strategy (
          keep
            (λ node.
              not (contains implied_success_nodes node)
              && not (contains implied_failure_nodes node))
            (nodes_with untested statuses)))
