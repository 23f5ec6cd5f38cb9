-- ===== src/Lib.antt =====
-- borgmatic-manager in a cubical type theory: the parts of the program that decide what is backed up
-- and when, translated from its Go source, with the theorems that make them correct.
--
-- The parts. A cycle of the daemon discovers the containers and their volumes and databases
-- (internal/discovery, which builds a BackupState of internal/models), merges them with what earlier
-- cycles saw (internal/state/groupcache.go), writes a borgmatic configuration for each group
-- (internal/config), decides which groups are due (internal/scheduler), runs borgmatic for them
-- (internal/runner), and records what came of it in a schedule file that the daemon shares with every
-- ad-hoc run of the program (internal/state/schedule.go). Between two cycles it sleeps for as long as
-- `NextWake` says, or until the listener of container events (internal/events) triggers the next one.
--
-- The files.
--   * Prelude and its children: the library names, numbers, lists and lookups that the parts share.
--     Int is an integer over the machine's natural numbers.
--   * GoMap: Go's maps as association lists, with `get`, `put` and `remove`, and IsMap, which says
--     that no key is doubled. Go iterates over a map in any order; the theorems that are stated by
--     lookups hold for each order of the entries.
--   * GoTime, GoStrings: the parts of Go's `time`, `strings` and `path/filepath` that are used.
--     A time is nanoseconds since Go's zero time; `sub` saturates at 64 bits as `Time.Sub` does.
--   * Models: internal/models/models.go. `update_group` is getOrCreateGroup followed by an assignment.
--   * Config.Value and Config.Merge: internal/config/merge.go, DeepMerge over YAML trees;
--     Merge.Paths has its laws by option path.
--   * Config.RepoKey: CanonicalRepoKey and isSCPStyle of internal/config/generate.go. The environment
--     and the symbolic links of the host are the parameters of the record Host.
--   * Config.Repositories: extractRepoKeys and extractRepoRefs of internal/config/generate.go, with
--     the theorems that tie the names of repositories to the keys that a run locks.
--   * Config.ArchivePatterns: patternOvermatches of internal/config/generate.go and the search below
--     it, with positions in a pattern as what is left of it; Names says what a pattern matches and what
--     a format makes, Chain, Positions, Live and Claims follow a name through the search, and Reached and
--     Exact lead back from the search to a name.
--   * State.Outcome: the record types of internal/state/schedule.go.
--   * State.RecordRun: the closure of RecordRun, one definition for each of its loops; Tracking,
--     Inventory, Freshness and History prove what it does to repositories and history.
--   * State.Schedule: the closures that RecordPending, ClearPending, MarkSuccess, RecordRun and Retain
--     give to `update`, each from a file to a file and a flag; Valid, Frame and Retention.
--   * State.Store: readFile, update, writeFile and Reload over a disk and a process's view, where
--     the record Faults says which of the lock, the read and the write fail. Survival has a relation
--     Reaches for the updates of any processes in any order, and Reloading what Reload finds.
--   * State.GroupCache: the merges of internal/state/groupcache.go for one group; Reconcile for all
--     groups and the cache file; Strip for StripUndumpableDatabases; Merge and Members, the laws.
--   * Scheduler: Due, EffectivePeriod and NextWake of internal/scheduler/scheduler.go, with their laws
--     in Rules and Wake; Fingerprint, GroupFingerprint with the hash as a parameter, with Sorted, the
--     sort of the standard library that the runner uses too, and Order; Round,
--     RunAllGroups as a relation of steps, one for each critical section of the loop, of a goroutine or
--     of the clean-up and for each use of the wait group, which are in Steps, with the laws in Finish,
--     Tracked, Marks, Live, Waiting and Ending;
--     Cycle, RunCycle up to that
--     round, with Planned and Stopped. What TryRunGroup, the discovery, the pre-run check and the
--     generation return are inputs.
--   * Runner: internal/runner/runner.go and lock.go. Locks is TryRunGroup as a machine of steps over a
--     table of locks: any number of runs, in any processes, take turns in any order, and a turn takes a
--     semaphore or a lock file, runs borgmatic or gives a lock back. Order, Holding, Planned, Exclusion,
--     Progress and Ending are its laws. Results has the reading of `create --json` and of
--     `list --json`, and newestArchiveFromThisRun (Freshness, Found); Matching is matchResults (Pairs,
--     Exact); Mentions is implicatedRepos with containsPathToken and tokenOccurrences, over bytes
--     (Tokens, Named, Found); Outcomes judges each repository (perRepoSuccess, perRepoFailure,
--     measuredOutcomes, confirmRepoSucceeded), and Evidence, Backed and Complete say what each
--     outcome rests on;
--     Verdict is interpretResult, and Exits its cases. What the processes of borgmatic and borg
--     return is an input.
--   * Restore: cmd/borgmatic-manager/restore_swap.go. Disk is a file system as a map from names to
--     directories, with the system calls that the code makes, each of which asks a list of fates
--     whether it works, fails or is the last before the process is killed; Triples has the rules to
--     reason about a program of such calls. Swap is swapIntoPlace with both of its ways
--     (renameat2 and two renames); Slots, States, Calls, Marks and Safe follow the three names that it
--     uses. Recovery is recoverInterruptedSwap with the functions that it calls; Kept, Names and
--     Repairs are its laws. The calls that set a mark on a directory
--     can fail like any other; the name that MkdirTemp makes is a parameter.
--   * Discovery: Volumes is discoverContainerVolumes and shouldSkipVolume of
--     internal/discovery/discover.go; Databases is setDBField and validateDatabase of
--     internal/discovery/labels.go, the databases of a spec (internal/discovery/spec.go), and the
--     choice of the dumps of a cycle. The listing of the runtime and the probes of the file system are
--     inputs.
--   * Events: internal/events/listener.go, the debounce of processStream with one definition for each
--     case of its select, and triggerSender; Sending has its calls action by action, under the mutex, and
--     Calm, Bursts and Owed are the laws.
--   * Tests: runs on concrete values, with an application of each theorem.
--
-- Bounds. Loops are over lists and need no fuel, with two exceptions: the walk over the elements of a
-- pattern takes the length of what is left of it as fuel, which no element exceeds, and the theorem
-- that all runs of TryRunGroup return finishes each run by a count of its remaining steps, which is
-- shown to be enough. History is bounded by maxHistory (90), and a sleep by minWake (30 s) from below.
-- A counter of cycles grows by one each cycle, and is an integer here. Times and sums of times are
-- integers too: Go's time.Time holds them for any year that the program meets. A difference of two
-- times is a 64-bit duration, which `sub` saturates as Go does. Texts are valid UTF-8: an archive
-- pattern is read by characters, where Go walks it by byte and decodes each.
--
-- Not modelled: Start of the scheduler and its observers; the codec of the JSON files beyond the
-- fields that it leaves out, temporary files and log lines; the clients of Docker and OpenTelemetry;
-- the processes, pipes and signals of the runner, its timeouts and its status; the parsing of labels
-- and the loop of Discover; the generation of configurations beyond the repositories that they name
-- and the search that compares an archive pattern with a format; the orchestrator; and the commands of
-- cmd/borgmatic-manager beyond the swap of a restored volume and its recovery, such as the copy of
-- owners and modes before the swap and the checks of the target.
pub mod Prelude
pub mod GoMap
pub mod GoTime
pub mod GoStrings
pub mod Config
pub mod State
pub mod Models
pub mod Scheduler
pub mod Discovery
pub mod Events
pub mod Runner
pub mod Restore
pub mod Tests
