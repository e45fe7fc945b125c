-- ===== src/Plan/Build/Steps.antt =====
-- git-branchless-lib/src/core/rewrite/plan.rs: `make_rebase_plan_for_current_commit` in a graph without
-- cycles.
use Prim.Native.String.{◌++◌ as ◌<>◌}
use git_branchless.Prelude.{
  ◌≡◌, refl, ap, ◌∙◌, inl, inr, Bool, true, false, Bool-cases, ◌||◌, ◌==◌, ==_self, string_eq, List,
  [], ◌∷◌, ◌++◌, String, Result, contains, any_of, length, All, arith,
}
use git_branchless.Prelude.Map.{lookup-insert}
use git_branchless.Oid.{oid_eq}
use git_branchless.Plan.{label, RebaseCommand, create_label, reset, Failure, RebasePlanBuilder}
use git_branchless.Plan.Graph.{ConstraintGraph}
use git_branchless.Plan.Build.{
  Commit, PlanRepo, BuildState, decimal, needs_label, label_parent, plan_each, plan_children,
}
use git_branchless.Plan.Build.Names.{make_label_name_lem}
use git_branchless.Plan.Build.Returns.{Returns, Returns-map, Returns-bind}
use git_branchless.Plan.Build.Labels.{IsScoped, labels_after, labels_after-append, IsScoped-append}
use git_branchless.Plan.Build.Own.{AreKnown, IsSafe}

-- the planner's state beside the commands so far
pub record IsReady (state : BuildState) (acc : List RebaseCommand) : Type 0 where
  pub scoped : IsScoped [] acc
  -- the labels in use are those that the commands create
  pub in_use : labels_after [] acc ≡ state.used_labels
  pub known : AreKnown state

-- after a step from a state with some labels
pub record IsAfter (g : ConstraintGraph) (used : List String)
    (result : BuildState × List RebaseCommand) : Type 0 where
  pub same_graph : result.0.constraints ≡ g
  pub ready : IsReady result.0 result.1
  pub keeps :
      (name : String) → contains used name ≡ true → contains result.0.used_labels name ≡ true

or_true : (x : Bool) → (x || true) ≡ true
or_true true = refl
or_true false = refl

pub IsAfter-trans :
    (g : ConstraintGraph) (used more : List String) (result : BuildState × List RebaseCommand)
    → ((l : String) → contains used l ≡ true → contains more l ≡ true)
    → IsAfter g more result
    → IsAfter g used result
IsAfter-trans g used more result grows later = record {
  same_graph = later.same_graph;
  ready = later.ready;
  keeps = λ l m. later.keeps l (grows l m);
}

pub append-IsReady :
    (state : BuildState) (acc commands : List RebaseCommand)
    → IsReady state acc
    → IsSafe state.used_labels commands
    → IsReady state (acc ++ commands)
append-IsReady state acc commands h safe = record {
  scoped = IsScoped-append [] acc commands h.scoped (rw h.in_use (safe.0));
  in_use =
      labels_after-append [] acc commands
      ∙ ap (λ seen. labels_after seen commands) h.in_use
      ∙ safe.1;
  known = h.known;
}

create-IsReady :
    (state : BuildState) (acc : List RebaseCommand) (name : String)
    → IsReady state acc
    → contains state.used_labels name ≡ false
    → IsReady
        (record state { used_labels = name ∷ state.used_labels })
        (acc ++ create_label name ∷ [])
create-IsReady state acc name h fresh = record {
  scoped = IsScoped-append [] acc (create_label name ∷ []) h.scoped (rw h.in_use (fresh, tt));
  in_use = labels_after-append [] acc (create_label name ∷ []) ∙ ap (λ seen. name ∷ seen) h.in_use;
  known = λ o l found. rw (h.known o l found) (or_true (name == l));
}

module _ {E : Type 0} (builder : RebasePlanBuilder) (repo : PlanRepo E) where
  pub label_parent-IsAfter :
      (g : ConstraintGraph) (state : BuildState) (commit : Commit) (children : List Commit)
      (acc : List RebaseCommand)
      → state.constraints ≡ g
      → IsReady state acc
      → Returns (IsAfter g state.used_labels) (label_parent builder repo state commit children acc)
  unfolding label_parent
  label_parent-IsAfter g state commit children acc same_g h =
      elim (Bool-cases (any_of (needs_label builder repo) children)) [
        | inr unneeded ↦
            rw (unneeded, label_parent)
              (record { same_graph = same_g; ready = h; keeps = λ name k. k })
        | inl needed ↦
            let (name, fresh, made) =
              make_label_name_lem {E = E} state ("parent-" <> decimal (length acc)) in
            let next = create-IsReady state acc name h fresh in
            rw (needed, label_parent, made)
              (record {
                same_graph = same_g;
                ready = record {
                  scoped = next.scoped;
                  in_use = next.in_use;
                  known = λ o l found. elim (Bool-cases (commit.commit_oid == o)) [
                    | inl same ↦
                        let is_l : name ≡ l =
                          ground
                            (arith, lookup-insert commit.commit_oid o name state.parent_labels) in
                        rw (← is_l, ==_self name)
                    | inr other ↦ next.known o l (
                        rw (lookup-insert commit.commit_oid o name state.parent_labels, other) at
                          found)
                  ];
                };
                keeps = λ l k. rw k (or_true (name == l));
              })
      ]

module _ {E : Type 0} (g : ConstraintGraph) (P : Commit → Type 0)
    (plan : BuildState
      → Commit
      → List RebaseCommand
      → Result (Failure E) (BuildState × List RebaseCommand))
    (plans : (state : BuildState) (commit : Commit) (acc : List RebaseCommand)
      → P commit
      → state.constraints ≡ g
      → IsReady state acc
      → Returns (IsAfter g state.used_labels) (plan state commit acc)) where
  plan_each-IsAfter :
      (name : String) (children : List Commit) (state : BuildState) (acc : List RebaseCommand)
      → All P children
      → state.constraints ≡ g
      → IsReady state acc
      → contains state.used_labels name ≡ true
      → Returns (IsAfter g state.used_labels) (plan_each plan name children state acc)
  unfolding plan_each
  plan_each-IsAfter name [] state acc fine same h k = record {
    same_graph = same;
    ready = h;
    keeps = λ l m. m;
  }
  plan_each-IsAfter name (child ∷ children) state acc fine same h k =
      Returns-bind (IsAfter g state.used_labels) (IsAfter g state.used_labels)
        (plan state child acc) _ (plans state child acc fine.0 same h)
        λ (state', acc') after.
          let returned = after.keeps name k in
          let ready =
            append-IsReady state' acc' (reset (label name) ∷ []) after.ready
              ((returned, tt), refl) in
          Returns-map (IsAfter g state'.used_labels) (IsAfter g state.used_labels)
            (plan_each plan name children state' (acc' ++ reset (label name) ∷ []))
            (λ result later.
              IsAfter-trans g state.used_labels state'.used_labels result after.keeps later)
            (plan_each-IsAfter name children state' (acc' ++ reset (label name) ∷ []) fine.1
              after.same_graph ready returned)

  pub plan_children-IsAfter :
      (children : List Commit) (state : BuildState) (acc : List RebaseCommand)
      → All P children
      → state.constraints ≡ g
      → IsReady state acc
      → Returns (IsAfter g state.used_labels) (plan_children plan children state acc)
  unfolding plan_children
  plan_children-IsAfter [] state acc fine same h = record {
    same_graph = same;
    ready = h;
    keeps = λ l m. m;
  }
  plan_children-IsAfter (child ∷ []) state acc fine same h = plans state child acc fine.0 same h
  plan_children-IsAfter (child ∷ next ∷ children) state acc fine same h =
      let (name, fresh, made) =
        make_label_name_lem {E = E} state ("label-" <> decimal (length acc)) in
      let state' : BuildState = record state { used_labels = name ∷ state.used_labels } in
      let acc' = acc ++ create_label name ∷ [] in
      rw (made, plan_children)
        (Returns-map (IsAfter g state'.used_labels) (IsAfter g state.used_labels)
          (plan_each plan name (child ∷ next ∷ children) state' acc')
          (λ result later.
            IsAfter-trans g state.used_labels state'.used_labels result
              (λ l m. rw m (or_true (name == l))) later)
          (plan_each-IsAfter name (child ∷ next ∷ children) state' acc' fine same
            (create-IsReady state acc name h fresh) (rw (==_self name) refl)))
