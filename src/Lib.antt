-- ===== src/Lib.antt =====
-- A model of issueq, a queue that turns GitHub issues into jobs for local runners, and the
-- properties that make it correct.
--
-- A poll stores issues; the router enqueues a job for each route that an issue matches, unless the
-- route's handoff gate blocks it; runners claim jobs under a lease, launch them, observe them and
-- end them; jobs of runners that are gone are given back or adopted. All of this goes through one
-- SQLite database, so the model has a record `Db` of its tables, and each method of the store is a
-- function from the tables to a result and the tables after it.
--
-- The program's parts and the files that model them:
--   internal/model             Model: the domain types.
--   internal/config            Config: the types of the configuration. Config/Defaults is
--                              `ApplyDefaults`; Config/Validate, with Config/Validate/Whole, is
--                              `Validate`.
--   internal/store             Effects/Queue: the calls of the interface, as programs; Errors: Go's
--                              errors.
--   internal/store/sqlite      Store: the tables and the errors. Store/Claim, Leases, Stale, Launch,
--                              Attempts, Finalize, Heartbeats, Issues, Handoffs, Gates and Queue model
--                              the methods named in their first lines; Store/Owned has the checks of
--                              ownership that they share, Store/Tx their transactions. A method of Go
--                              is the function of the same name in lower case (`ClaimNextJob` is
--                              `claim_next_job`). `Sql` has the statements' meaning over the rows.
--   internal/router            Router, with Router/Gate, Router/Scope and Router/Pass.
--   internal/supervisor        Supervisor: the records of a launch and of an observation.
--   internal/supervisor/wrapper, internal/jobwrapper
--                              JobWrapper, with `Inspect` in JobWrapper/Inspect.
--   internal/workflow          Workflow, with Workflow/Observe, Workflow/Finalize and Workflow/Adopt,
--                              for workflow.go, observe.go, finalize.go and adopt.go. Their interfaces
--                              to the queue are records over any state; Workflow/StoreQueue has the
--                              store as one. Workflow/Owned, Prepare and Lifecycle are lifecycle.go
--                              and `ApplyOwned`; Workflow/Launch and Workflow/Launch/Steps are
--                              launch.go.
--   internal/actions           Actions, with Actions/Labels, Actions/Apply and Actions/Results;
--                              `parse_work_started_file` is in Workflow/Finalize.
--   internal/runner            Runner.
--   internal/dispatcher        Dispatcher, with Dispatcher/Reaping, and Dispatcher/Intervals, which are
--                              the daemon's too.
--   internal/handoff           Handoff.
--   internal/poller            Poller.
--
-- How the parts interact: the poller stores issues and the handoffs of their comments; the router
-- reads both and enqueues jobs; the dispatcher claims a job, lets the workflow prepare it (actions on
-- the issue, an attempt counted) and launch it (a run of the supervisor, recorded in steps), and
-- counts what came of it; later the workflow finalizes the observation of the run, which the wrapper's
-- metadata gives. Each of these is a program of Effects: a function from a world, which is the tables,
-- the number of calls made so far and the trace of what was written outside, to an answer and a world.
-- The calls that leave the program are answered by the record `Outside`, which a theorem takes as
-- an argument, so it holds for any answers; errors of the database driver are among them.
--
-- The proofs: Store/Consistent and Store/WellFormed have the invariant, Store/Steps the calls as a
-- step relation, Store/Others and Foreign the rows that a call leaves alone; Claiming is about
-- claims, Leasing about leases and owners, Records about what is kept once, Routing about the
-- router, Workflow/Counts about the counts of a pass, and Workflow/Durable about the launches that
-- the store and the workflow take for durable. Effects/Keeps, Ends and From have rules for
-- programs, and Effects/Stable the predicates that every step of the workflow respects;
-- Workflow/Stable, StablePrograms, StableFinalize, Guarded and Others use them, as do
-- Workflow/Launch/Marked and Safety. Workflow/Launchable is about prepared jobs,
-- Dispatcher/Refilling and Dispatcher/Reaping/Owned and Stable about the wave, Actions/Merging and
-- Sameness about labels, Config/Validate/Labels about actions, Config/Validate/Filled about
-- defaults, Runner/Environment about variables, JobWrapper/Endings about the ends of runs,
-- Handoff/Parsing, Poller/Stored and Poller/Polled about those parts. Examples has concrete inputs
-- and tests.
--
-- Conventions:
--   * A time is the number of nanoseconds since Go's zero time, which is 0. The store writes times in
--     a layout of fixed width in UTC, so the order of the texts is the order of the numbers. Each
--     reading of the clock, and each new id, is an argument, so a theorem holds for any readings.
--   * A nullable column is an option. A comparison with NULL is not true.
--   * Labels pass through JSON unchanged. Counters and times are not bounded.
--   * Statuses and launch states are data types, since only the constants are written.
--   * Loops are over the rows or items that they are given, so no fuel is needed, but for the loop of
--     `refill`: its fuel is a number of rounds, and the answer says whether it ran out. As many
--     rounds as the frontier has jobs are enough, since a round that is not the last claims one of them.
--   * Hashes, layouts of times, printing, files, JSON, regular expressions, the environment and the
--     answers of GitHub and of a supervisor are parameters; nothing is assumed of them.
--
-- Where the code and the documents differ: docs/handoff-gates-spec.md has the freshness
-- `target_head_unchanged` pass while the target's head is unchanged; the code blocks it always, and the
-- model follows the code.
--
-- Not modelled: Open and Migrate of the store; the router's actions on GitHub for a blocked issue,
-- so a pass is the one without a client; the decoding of YAML and the paths of the configuration;
-- the dispatcher's cancellation of active jobs and the loop around the wave; the daemon, but for
-- its intervals, since it is goroutines, signals and timers; the GitHub client, which is HTTP; the
-- processes and files of the wrapper and the supervisor; logging and the command line.
pub mod Prelude
pub mod Sql
pub mod Model
pub mod Config
pub mod Store
pub mod Errors
pub mod Claiming
pub mod Supervisor
pub mod Leasing
pub mod Records
pub mod Router
pub mod Routing
pub mod Runner
pub mod Effects
pub mod Actions
pub mod Workflow
pub mod JobWrapper
pub mod Dispatcher
pub mod Handoff
pub mod Poller
mod Examples
