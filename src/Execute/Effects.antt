-- ===== src/Execute/Effects.antt =====
-- git-branchless-lib/src/core/rewrite/execute.rs: how a command changes the state of the rebase, without
-- the repository.
use git_branchless.Prelude.{
  ◌≡◌, refl, ◌⊎◌, inl, inr, Option, none, some, Bool-cases, ◌==◌, string_eq, option_eq,
  if◌then◌else◌, List, [], ◌∷◌, String,
}
use git_branchless.Prelude.Map.{Map, insert}
use git_branchless.Oid.{NonZeroOid, MaybeZeroOid, oid_eq}
use git_branchless.Plan.{
  RebaseCommand, create_label, reset, pick, merge, replace, break, register_extra_post_rewrite_hook,
  detect_empty_commit, skip_upstream_applied_commit,
}
use git_branchless.Execute.InMemory.{
  RebaseState, insert_all, maybe_set_skipped_head_new_oid, skip_commit,
}

module _ {Store : Type 0} (head_oid : Option NonZeroOid) where
  -- the first commit that `HEAD` falls back to is kept
  abbrev pub skipped_to : NonZeroOid → RebaseState Store → Option NonZeroOid
  skipped_to o state =
      if some o == head_oid
      then elim state.skipped_head_new_oid [ none ↦ some state.current_oid | some p ↦ some p ]
      else state.skipped_head_new_oid

  -- the commit is left out
  pub record IsSkip (o : NonZeroOid) (before after : RebaseState Store) : Type 0 where
    pub same_labels : after.labels ≡ before.labels
    pub now_rewritten : after.rewritten_oids ≡ insert o MaybeZeroOid.zero before.rewritten_oids
    pub now_skipped : after.skipped_head_new_oid ≡ skipped_to o before
    pub same_current : after.current_oid ≡ before.current_oid

  -- the commits have one new version, where the rebase goes on
  pub record IsRewrite (os : List NonZeroOid) (before after : RebaseState Store) : Type 0 where
    pub new_oid : NonZeroOid
    pub same_labels : after.labels ≡ before.labels
    pub now_rewritten : after.rewritten_oids ≡ insert_all os new_oid before.rewritten_oids
    pub same_skipped : after.skipped_head_new_oid ≡ before.skipped_head_new_oid
    pub now_current : after.current_oid ≡ new_oid

  -- no commit is rewritten, and the labels become others
  pub record IsMove (labels : Map String NonZeroOid) (before after : RebaseState Store)
      : Type 0 where
    pub now_labels : after.labels ≡ labels
    pub same_rewritten : after.rewritten_oids ≡ before.rewritten_oids
    pub same_skipped : after.skipped_head_new_oid ≡ before.skipped_head_new_oid

  abbrev pub Effect : RebaseCommand → RebaseState Store → RebaseState Store → Type 0
  Effect (create_label name) before after =
      IsMove (insert name before.current_oid before.labels) before after
  Effect (reset _) before after = IsMove before.labels before after
  Effect (pick o os) before after = IsSkip o before after ⊎ IsRewrite (o ∷ os) before after
  Effect (replace o _ _) before after = IsRewrite (o ∷ []) before after
  Effect (skip_upstream_applied_commit o) before after = IsSkip o before after
  Effect register_extra_post_rewrite_hook before after = IsMove before.labels before after
  Effect (detect_empty_commit _) before after = IsMove before.labels before after
  Effect (merge _ _) before after = ⊥
  Effect break before after = ⊥

  pub skip_commit-IsSkip :
      (o : NonZeroOid) (state : RebaseState Store) → IsSkip o state (skip_commit head_oid o state)
  unfolding skip_commit maybe_set_skipped_head_new_oid
  skip_commit-IsSkip o state = elim (Bool-cases (some o == head_oid)) [
    | inl is_head ↦ rw is_head (record {
      same_labels = refl;
      now_rewritten = refl;
      now_skipped = rw is_head refl;
      same_current = refl;
    })
    | inr elsewhere ↦ rw elsewhere (record {
      same_labels = refl;
      now_rewritten = refl;
      now_skipped = rw elsewhere refl;
      same_current = refl;
    })
  ]
