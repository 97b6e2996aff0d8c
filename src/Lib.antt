-- ===== src/Lib.antt =====
-- browser_analysis: a verification library for the benchmark of browser architectures.
--
-- The program runs workflows, sequences of operations on a target web application, as logical tasks
-- on a bounded pool of workers, and measures what they take: time, failures, processes and memory. A
-- worker drives the target over HTTP, through a browser, or through both.
--
-- How the parts work together: the scheduler's driver (internal/scheduler/driver.go) turns a
-- configuration (internal/config) into runs of a closed loop of tasks; the pool's workers
-- (internal/contexts/worker.go and its likes) run a workflow (internal/workflow) by an executor and
-- report to the recorder (internal/metrics/metrics.go), which the driver clears after the warm-up. At
-- the side a monitor takes snapshots of the process table, which are labelled
-- (internal/process/ownership.go), aggregated and summarised (internal/accounting). The controller
-- (internal/controller/controller.go) makes the workers and the results (internal/results), for the
-- command line (cmd/bench), which runs one configuration, a small matrix or a sweep. The target
-- is an application of the repository's own (target/backend): a store over SQL, handlers, and a hub
-- that passes events on to web sockets.
--
-- Which file models which part:
--   Process, Process/Ownership      internal/process/process.go and ownership.go: `classify` is
--                                   `Classify`, `is_owned` its parent walk
--   Accounting, Accounting/Stats    internal/accounting/accounting.go: `Aggregate`, `Stats`, `FStats`
--   Accounting/Aggregator           internal/accounting/aggregator.go
--   Metrics/Lifecycle, /Recorder    internal/metrics/lifecycle.go and metrics.go: one function per method
--   Workflow                        internal/workflow/workflow.go, workflows.go, errors.go, state.go
--   Workflow/Steps                  the loop over the steps that all the executors have
--   Workflow/Recording              what the workers hand to the metrics recorder for each result
--   Workflow/Http                   internal/workflow/http_executor.go: `step_as` is `executeStep`,
--                                   `perform` and `finish` are `do`
--   Hybrid                          internal/hybrid/executor.go; Hybrid/Worker: worker.go
--   Browser/Page                    internal/browser/executor.go: `step_as` is `executeStep`
--   Browser/Worker                  internal/browser/worker.go: `start_browser` is `StartBrowser`
--   Contexts, Contexts/Launch       internal/contexts/pool.go; Contexts/Worker: worker.go
--   Cdp, Cdp/Worker                 internal/cdp/cdp.go and worker.go
--   Config                          internal/config/config.go
--   Scheduler/Driver                internal/scheduler/driver.go, but for the body of `runFixed`
--   Scheduler/Loop                  the body of `runFixed` with `Submit` and `workerLoop` of
--                                   internal/scheduler/pool.go, as a step relation
--   HttpWorker                      internal/httpworker/worker.go
--   Metrics/Sampler                 internal/metrics/sampler.go
--   Process/Monitor                 internal/process/monitor.go
--   Controller                      internal/controller/controller.go: the shares and the CDP workers
--   Controller/Run                  the same file's `Run`, from the pool to the results
--   Cli/Args, Cli/Flags, Cli/Quick  cmd/bench/main.go and commands.go: the lists and numbers in flags,
--                                   `runConfigFromFlags`, `cmdRun` and `cmdQuick`
--   Cli/Sweep                       cmd/bench/commands.go: the matrix of `cmdSweep`
--   Cli/Runs                        cmd/bench/commands.go: `listRuns`, `collectRuns`, `writeSweepSummaries`
--   Cli/Report                      cmd/bench/commands.go: the numbers of `writeHolisticSummary` and
--                                   `cmdAnalyzeSweep`
--   Process/Collector               internal/process/collector_windows.go
--   System                          internal/system/collector_windows.go: `tree_rss` is `TreeRSS`
--   Results                         internal/results/results.go, resource.go and resource_builder.go
--   Results/Files                   internal/results/results.go: `WriteRun` and the functions it calls
--   Target/Tables, Target/Store     target/backend/store.go: its SQL statements, and its methods
--   Target/Handlers                 target/backend/main.go
--   Target/Hub                      target/backend/ws.go
--   Stats, Saturation               internal/stats/stats.go, internal/saturation/saturation.go
-- The other files hold proofs and, where they are called Tests, concrete runs.
--
-- Numbers: sizes of memory are unsigned 64-bit integers whose sums wrap; durations are nanoseconds; a
-- float64 is an interface (Prelude/Double) of which nothing is assumed but what a theorem states. The
-- quantity of a cart row is a number without a bound; past the largest int, where SQLite makes it a
-- float, the cart cannot be read. A text is the list of its code points. A method that holds a mutex
-- is one step.
--
-- Fuel: the parent walks of `Classify` and `TreeRSS` need it, one unit for each test of the loop; they
-- return `none` when the fuel is used up. It is enough if it is above the ranks of the PIDs asked for,
-- where each recorded parent has a lower rank than its child; where parents form a cycle none is
-- enough. The wait for the debug port has 301 rounds: 300 sleeps of 100 ms reach its deadline of 30 s.
--
-- Parameters, since their code is not in the repository: the HTTP client, the JSON and YAML decoders,
-- the file system and the CSV writer, the printing of numbers, the operating system, Playwright with
-- its browsers, contexts and pages, and database/sql with SQLite, of which Target/Store/Laws says what
-- is relied on: a statement is given as what it does to the tables. Target/Tests has an instance of it
-- in memory.
--
-- Not modelled: the system calls, with the counts of processes and threads; the two CSV files of a
-- sweep, the text of the reports and what the command line prints; its dispatch of commands, what
-- `cmdSweep` checks before its matrix, and `cmdResources`; the exporter; the migration and the seed of
-- the target's tables, its environment variables and the loop of a web socket's connection.
mod Prelude
pub mod Process
pub mod Accounting
pub mod Metrics
pub mod Workflow
pub mod Hybrid
pub mod Contexts
pub mod Config
pub mod Scheduler
pub mod HttpWorker
pub mod Saturation
pub mod Stats
pub mod Browser
pub mod Cdp
pub mod Target
pub mod Results
pub mod System
pub mod Cli
pub mod Controller
