-- ===== src/Lib.antt =====
-- git-branchless: the event log that the branchless workflow rests on, what is undone with it, and
-- the search for the commit where a predicate flips.
--
-- The program records what happens in a repository as events
-- (git-branchless-lib/src/core/eventlog.rs) and replays them: an event replayer knows at each
-- cursor, a position between events, which commits are visible and where the references were. Undo
-- inverts the events since a cursor, garbage collection removes the references that keep hidden
-- commits alive, and the search for the newest version of a commit follows its rewrites. Moving
-- commits is planned and then executed: constraints become a graph, the graph a list of commands,
-- and the commands are run in memory one by one. The bisect library (scm-bisect) suggests commits to
-- test.
--
-- Files, and what they model:
--   Oid            git-branchless-lib/src/git/oid.rs: NonZeroOid, MaybeZeroOid and their text
--   EventLog       git-branchless-lib/src/core/eventlog.rs: Event, EventTransactionId; EventLog/Row is
--                  the conversions of events and rows, EventLog/Db is EventLogDb, EventLog/Stored the
--                  proofs that what is stored is read back
--   Replay         the same file: EventReplayer, process_event and fix_event_git_v2_31; Replay/Status
--                  is the histories and statuses of commits at a cursor, Replay/Cursor the cursors and
--                  their moves, Replay/Refs the references at a cursor; Replay/History and the child
--                  modules of the others hold the proofs
--   Reference      git-branchless-lib/src/git/reference.rs: CategorizedReferenceName
--   Glob           git-branchless-lib/src/core/config.rs: is_branch_ignored; Glob/Matches is what a
--                  pattern means, Glob/Greedy, Glob/Parts and Glob/Exact are the proofs
--   Rewrite        git-branchless-lib/src/core/rewrite/evolve.rs: find_rewrite_target
--   Gc             git-branchless-lib/src/core/gc.rs: find_dangling_references; Gc/Outcomes is what it
--                  can come to, Gc/Exact the proofs
--   Undo           git-branchless-undo/src/lib.rs: inverse_event, extract_checkout_target, undo_events;
--                  Undo/Restores and Undo/Moves are the proofs on references, Undo/Visible those on
--                  commits, Undo/Logs those on the log
--   Hide           git-branchless/src/commands/hide.rs: the events of `hide` and `unhide`; Hide/Status and
--                  Hide/Undone are the proofs
--   Plan           git-branchless-lib/src/core/rewrite/plan.rs: RebaseCommand, Constraint and
--                  RebasePlanBuilder; Plan/Graph is ConstraintGraph, Plan/Cycles its check for cycles,
--                  Plan/Build `build` with the recursion over the commits; the child modules of the
--                  last two hold the proofs
--   Execute        git-branchless-lib/src/core/rewrite/execute.rs: Execute/InMemory is
--                  rebase_in_memory; Execute/Effects and Execute/Runs are what a command does to the
--                  state without the repository, Execute/Labels, Execute/Kept, Execute/Skips and
--                  Execute/Fallback what follows of a whole rebase; Execute/Branches is move_branches,
--                  with proofs in Execute/Moves, Execute/Follows and Execute/Arrives; Execute/Head is
--                  check_out_updated_head, post_rebase_in_memory and execute_rebase_plan, with proofs in
--                  Execute/Updated and Execute/Forced
--   Bisect         scm-bisect/src/search.rs: Search and its notify; Bisect/Iter is the iterator of
--                  Search::search, Bisect/Basic is scm-bisect/src/basic.rs
--   Examples       runs of the model and the theorems at concrete inputs
--   Prelude        tests, lists, maps and results that the others share
--
-- State is passed explicitly: `process_event` maps a replayer to a replayer, `apply_undo` the
-- references and the database to new ones or an error, `notify` a search to a search or an error.
-- HashMap and IndexMap are association lists, a HashSet is a list in the order of its iteration, a Vec
-- is a list.
-- A timestamp is a number, an identifier the number that its bytes spell, `isize` an integer.
--
-- What is not under the repository's control is a parameter: the text of identifiers (OidText) and of
-- transaction numbers (TxText), what the replayer asks of the repository (RepoView), the graph and the
-- strategy of a search (Graph, Strategy, BasicSourceControlGraph), the commit graph of a planner (Dag)
-- and the repository of a planner, of a rebase, of what follows it and of an undo (PlanRepo, Repo, which
-- has a store, BranchRepo, HeadRepo, PostRepo, UndoRepo), each with the laws that the proofs use of it.
-- What they may refuse is a question with an error as its answer: the clock and SQLite for a new
-- transaction (TxSource), git for a reference (UndoRepo, the references of Gc).
--
-- Fuel: moving a cursor takes one unit more than the log has events, since each step moves by one
-- event and stops at the ends; the search for the newest version takes one more than the events before
-- the cursor, since each rewrite that is followed is later than the one before; the iterator of a
-- search takes the size of the full binary tree on the untested nodes, since each result that is
-- speculated on decides one of them. The check for cycles takes one unit more than the graph has
-- commits, since its path repeats none, and the recursion over the commits of a plan no more than the
-- check did. A label takes one more name than there are used ones, since a tick makes a name longer.
--
-- Not modelled: the search for patch IDs that were applied upstream (a question to the repository), the
-- rebases on disk, which run git, SQLite itself with the failures of its other queries, the messages that are printed, the
-- interactive selection of a past state, the detaching and the checkout of HEAD after an undo, and the
-- rest of the commands.
pub mod Prelude
pub mod Oid
pub mod EventLog
pub mod Reference
pub mod Glob
pub mod Replay
pub mod Rewrite
pub mod Gc
pub mod Undo
pub mod Hide
pub mod Plan
pub mod Execute
pub mod Bisect
mod Examples
