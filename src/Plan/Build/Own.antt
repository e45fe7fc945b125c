-- ===== src/Plan/Build/Own.antt =====
-- git-branchless-lib/src/core/rewrite/plan.rs: the commands for one commit use known labels only.
use git_branchless.Prelude.{
  ◌≡◌, refl, inl, inr, true, Bool-cases, string_eq, nat_eq, Option, none, some, Option-cases, List,
  [], ◌∷◌, String, Result, ok, ◌>>=◌, contains, is_empty, any_of, length, ltb, ℕ, All, arith,
}
use git_branchless.Prelude.Map.{lookup}
use git_branchless.Oid.{NonZeroOid, oid_eq}
use git_branchless.Plan.{
  OidOrLabel, oid, label, RebaseCommand, pick, detect_empty_commit, Failure, reported,
  RebasePlanBuilder,
}
use git_branchless.Plan.Graph.{commits_to_move, fixup_commits}
use git_branchless.Plan.Build.{
  Commit, PlanRepo, BuildState, merge_target, collect_targets, applies, replacement_target,
  map_targets, is_applied_upstream, merge_commands, pick_commands, own_commands,
}
use git_branchless.Plan.Build.Returns.{Returns, Returns-bind, Returns-reported}
use git_branchless.Plan.Build.Labels.{IsKnown, IsScoped, labels_after}

-- the labels that the planner may refer to are those in use
abbrev pub AreKnown : BuildState → Type 0
AreKnown state =
    (o : NonZeroOid) (name : String)
    → lookup o state.parent_labels ≡ some name
    → contains state.used_labels name ≡ true

-- commands that refer to known labels only, and create none
abbrev pub IsSafe : List String → List RebaseCommand → Type 0
IsSafe used commands = IsScoped used commands × (labels_after used commands ≡ used)

abbrev pub AreSafe : List String → Option (List RebaseCommand) → Type 0
AreSafe used none = Unit
AreSafe used (some commands) = IsSafe used commands

module _ (state : BuildState) (known : AreKnown state) where
  merge_target-IsKnown :
      (o : NonZeroOid) (t : OidOrLabel)
      → merge_target state o ≡ some t
      → IsKnown state.used_labels t
  unfolding merge_target
  merge_target-IsKnown o t e = elim (Bool-cases (contains (commits_to_move state.constraints) o)) [
    | inl moved ↦ elim (Option-cases (lookup o state.parent_labels)) [
      | inl no_label ↦ absurd (cc (rw (moved, merge_target, no_label) at e))
      | inr (name, found) ↦
          let named : some (label name) ≡ some t = rw (moved, merge_target, found) at e in
          let same : label name ≡ t = ground arith in rw (← same) (known o name found)
    ]
    | inr stays ↦
        let named : some (oid o) ≡ some t = rw (stays, merge_target) at e in
        let same : oid o ≡ t = ground arith in rw (← same) tt
  ]

  collect_targets-IsKnown :
      (os : List NonZeroOid) (ts : List OidOrLabel)
      → collect_targets (merge_target state) os ≡ some ts
      → All (IsKnown state.used_labels) ts
  collect_targets-IsKnown [] ts e = let same : [] ≡ ts = ground arith in rw (← same) tt
  collect_targets-IsKnown (o ∷ os) ts e = elim (Option-cases (merge_target state o)) [
    | inl waits ↦ absurd (cc (rw (waits, collect_targets) at e))
    | inr (t, first) ↦ elim (Option-cases (collect_targets (merge_target state) os)) [
      | inl waits ↦ absurd (cc (rw (first, collect_targets, waits) at e))
      | inr (rest, others) ↦
          let all : some (t ∷ rest) ≡ some ts = rw (first, collect_targets, others) at e in
          let same : t ∷ rest ≡ ts = ground arith in
          rw (← same) (merge_target-IsKnown o t first, collect_targets-IsKnown os rest others)
    ]
  ]

  map_targets-IsKnown :
      (os : List NonZeroOid)
      → All (IsKnown state.used_labels) (map_targets (replacement_target state) os)
  map_targets-IsKnown [] = tt
  map_targets-IsKnown (o ∷ os) = (
    elim (Option-cases (lookup o state.parent_labels)) [
      | inl no_label ↦ rw (no_label, replacement_target) tt
      | inr (name, found) ↦ rw (found, replacement_target) (known o name found)
    ],
    map_targets-IsKnown os,
  )

  module _ {E : Type 0} (builder : RebasePlanBuilder) (repo : PlanRepo E) where
    merge_commands-IsSafe :
        (commit : Commit) (targets : List OidOrLabel)
        → All (IsKnown state.used_labels) targets
        → Returns (IsSafe state.used_labels) (merge_commands builder repo commit targets)
    unfolding merge_commands
    merge_commands-IsSafe commit [] h = tt
    merge_commands-IsSafe commit (first ∷ rest) h =
        elim (Option-cases (lookup commit.commit_oid builder.replacement_commits)) [
          | inl no_other ↦ rw (no_other, merge_commands) ((h.0, (h.1, tt)), refl)
          | inr (other, found) ↦ rw (found, merge_commands) ((h.0, (h, tt)), refl)
        ]

    pick_commands-IsSafe :
        (commit : Commit)
        → Returns (IsSafe state.used_labels) (pick_commands builder repo state commit)
    unfolding pick_commands
    pick_commands-IsSafe commit =
        elim (Option-cases (lookup commit.commit_oid builder.replacement_commits)) [
          | inl no_other ↦ elim (Option-cases (lookup commit.commit_oid state.constraints.fixups)) [
            | inl alone ↦ rw (no_other, pick_commands, alone) ((tt, (tt, tt)), refl)
            | inr (fixups, found) ↦
                rw (no_other, pick_commands, found)
                  (Returns-bind (λ _. Unit) (IsSafe state.used_labels)
                    (reported (repo.sorted_commits (commit.commit_oid ∷ fixups)))
                    (λ to_apply. ok (
                      pick commit.commit_oid to_apply ∷ detect_empty_commit commit.commit_oid ∷ []))
                    (Returns-reported (λ _. Unit) (repo.sorted_commits (commit.commit_oid ∷ fixups))
                      λ _ _. tt)
                    λ _ _. ((tt, (tt, tt)), refl))
          ]
          | inr (other, found) ↦
              rw (found, pick_commands)
                (Returns-bind (λ _. Unit) (IsSafe state.used_labels)
                  (reported (repo.find_commit_or_fail other)) _
                  (Returns-reported (λ _. Unit) (repo.find_commit_or_fail other) λ _ _. tt)
                  λ commit' _. ((map_targets-IsKnown commit'.parent_oids, tt), refl))
        ]

    applied_fine :
        (upstream : List ℕ) (commit : Commit)
        → Returns (λ _. Unit) (is_applied_upstream builder repo upstream commit)
    unfolding is_applied_upstream
    applied_fine upstream commit = elim (Bool-cases (is_empty upstream)) [
      | inl none_known ↦ rw none_known tt
      | inr some_known ↦ rw some_known (
          Returns-bind (λ _. Unit) (λ _. Unit) (reported (repo.get_patch_id commit.commit_oid)) _
            (Returns-reported (λ _. Unit) (repo.get_patch_id commit.commit_oid) λ _ _. tt)
            λ _ _. tt)
    ]

    safe_commands :
        (commands : Result (Failure E) (List RebaseCommand))
        → Returns (IsSafe state.used_labels) commands
        → Returns (AreSafe state.used_labels) (commands >>= λ c. ok (some c))
    safe_commands commands h =
        Returns-bind (IsSafe state.used_labels) (AreSafe state.used_labels) commands _ h
          λ c safe. safe

    pub own_commands-AreSafe :
        (upstream : List ℕ) (commit : Commit) (acc : List RebaseCommand)
        → Returns (AreSafe state.used_labels) (own_commands builder repo upstream state commit acc)
    unfolding own_commands is_applied_upstream
    own_commands-AreSafe upstream commit acc =
        Returns-bind (λ _. Unit) (AreSafe state.used_labels)
          (is_applied_upstream builder repo upstream commit) _ (applied_fine upstream commit)
          λ applied _. elim (Bool-cases applied) [
            | inl skipped ↦ rw skipped ((tt, tt), refl)
            | inr to_do ↦ elim (Bool-cases (ltb 1 (length commit.parent_oids))) [
              | inl merges ↦
                  elim (Option-cases (collect_targets (merge_target state) commit.parent_oids)) [
                    | inl waits ↦ rw (to_do, merges, waits) tt
                    | inr (targets, found) ↦
                        elim (Bool-cases (any_of (applies commit.commit_oid) acc)) [
                          | inl again ↦ rw (to_do, merges, found, again) tt
                          | inr fresh ↦
                              rw (to_do, merges, found, fresh)
                                (safe_commands (merge_commands builder repo commit targets) (
                                  merge_commands-IsSafe commit targets
                                    (collect_targets-IsKnown commit.parent_oids targets found)))
                        ]
                  ]
              | inr single ↦
                  elim (Bool-cases (contains (fixup_commits state.constraints) commit.commit_oid)) [
                    | inl absorbed ↦ rw (to_do, single, absorbed) (tt, refl)
                    | inr kept ↦
                        rw (to_do, single, kept)
                          (safe_commands (pick_commands builder repo state commit)
                            (pick_commands-IsSafe commit))
                  ]
            ]
          ]
