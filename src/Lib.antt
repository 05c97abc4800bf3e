-- ===== src/Lib.antt =====
-- The monitoring daemon of this repository, Daemon/*.go: every 20 seconds it reads two snapshots
-- that kernel modules publish under /proc, records them in an SQLite file, and stops the stress
-- containers that are above their quotas.
--
-- Parts, and the files that model them:
--   - Daemon/clean_cont.go: Rules. `enforce_rules` is enforceRules, with its two calls of
--     `list_stress_containers` (listStressContainers) and the loops that call `stop_container`
--     (stopContainer). The host is a `Shell`: a function from a command with its timeout to its
--     output and the next state. Rules/Reading is about the text that `docker ps` prints, Rules/Loop
--     about the loops, Rules/Quota and Rules/Counts about a host on which docker works as
--     documented, Rules/Loss and Rules/Failures about one on which any command may fail.
--   - Daemon/readsystem.go and Daemon/readcont.go: the records in Snapshot, `read_sysinfo`
--     (ReadSysinfo) and `read_cont_info` (ReadContInfo) in Daemon. What the calls on the file and the
--     JSON decoder give is a `Reading`.
--   - Daemon/insert_cont.go: Containers has UpsertContainersFromSnapshot, classifyContainerType and
--     the query of GetTotalDeletedContainers (Daemon/main.go); Metrics has
--     InsertContainerHostMetrics and InsertContainerMetricsBulk; Cpu has BuildContainerCpuPct.
--   - Daemon/insert_system.go: Metrics has InsertSystemMetrics, InsertProcessMetricsBulk and
--     InsertProcessStateSummary; Cpu has BuildProcCpuPct.
--   - The Create…Table functions of both, in the order of main: Schema.
--   - Daemon/main.go: Daemon. `cycle` is the body of the loop, `State` the variables that live across
--     cycles, and `run_cycles` any number of rounds.
--   - Daemon/main.go, the start: Main. `start_commands` is IsGrafanaRunning, StartGrafanaContainers,
--     RunInstallModules and RunStressContainerScript over the commands as parameters, `prepare_db`
--     is OpenDB and the tables, and `run_main` the whole of main with its loop run for some cycles.
--   - Daemon/main.go, its goroutines: Startup. `main_step` is main up to its loop, `handler_step` the
--     goroutine that waits for a signal, `waiter_step` the one that RunStressContainerScript leaves
--     waiting; they share `stressCmd`, and `run_moves` runs any interleaving of their steps.
--     Startup/Shutdown is about any interleaving, Startup/Outcome about a signal while the loop runs.
--     RunDetenerScript, which waits for its script without a limit, is one turn: that it returns is
--     assumed.
--   - PrintSysInfo and PrintContainers: Console, as the list of the lines that they print. The
--     comparator of the source is `cpu_before`; sort.Slice is a parameter, and Console/Sorting says
--     what Go documents of it: given a strict weak order, it reorders the slice into that order.
--
-- The database. Database has a record of rows for each table, a constructor of `Stmt` for each
-- statement of the source, and `apply`, what it does to the tables. `Engine` is database/sql over the
-- driver, each call of which may fail; Database/Tx has the chains of calls with their early returns
-- and rollbacks. Database/Laws states what is relied on of SQLite (`IsSqlite`): a statement that
-- succeeds has its effect, a rollback goes back to the state at Begin, a failed commit has rolled
-- back, a query that is read to its end without error gives the rows. A cursor is read to its end
-- before the loop over it starts; the loop only updates rows that the cursor has passed. The columns
-- `id` and `created_at`, which the database fills in, are left out.
--
-- Text is a list of bytes. Text has the functions of Go's strings and bufio that the daemon calls;
-- on letters and white space they follow ASCII, which is what container ids, names and images are
-- made of. The limit of the scanner on the length of a line is modelled. A machine integer is its
-- pattern of 64 bits, sums and differences are taken modulo 2 ^ 64 and comparisons of int64 respect
-- the sign. Doubles are patterns too; their arithmetic is the parameter `Float64`, of which nothing
-- is assumed. The order in which Go ranges over a map is a parameter of each loop (`visit`), and
-- where a theorem needs it to visit each key it says so.
--
-- Every loop is structural recursion over the list it goes through, so no fuel is used and every
-- definition is total.
--
-- Examples has an in-memory database that meets the laws, a host on which docker works, and the
-- theorems on concrete data.
--
-- Not modelled: the layout of what is printed, the console messages of the other functions and the
-- texts of errors, time.Sleep, what the programs that are called do, the JSON decoder, the C code of
-- kernel/, the shell scripts of bash/ and cronjob/, and grafana/.
mod Prelude
pub mod Text
pub mod Rules
pub mod Snapshot
pub mod Database
pub mod Containers
pub mod Cpu
pub mod Metrics
pub mod Schema
pub mod Daemon
pub mod Startup
pub mod Console
pub mod Main
mod Examples
