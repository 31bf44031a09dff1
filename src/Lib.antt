-- ===== src/Lib.antt =====
-- visus: a collector of metrics for CockroachDB clusters.
--
-- visus keeps configurations (collections of metrics, log scans, histograms) in a store. On every
-- node a collector server reads the collections again and again and has a scheduler run one
-- collector for each; a collector queries the database and sets counters and gauges of Prometheus. A
-- scanner server likewise keeps one scanner for each log scan, and a scanner counts the lines of a log
-- file. The HTTP server hands on the metrics of CockroachDB, with its histograms translated to fewer
-- buckets, and adds its own. The commands write the configurations.
--
-- Parts and files:
-- - Store/Types: the records of internal/store/{collection,histogram,scan,node}.go and the interface
--   `Store` of internal/store/store.go, as a record of operations over a state. The server takes a
--   store as a parameter; `memory_store` is one.
-- - Store/Memory: internal/store/memory.go, one function for each method, in the order of the file.
--   Its children: Calls (the methods as one data type), Errors, View (a specification), Names, Nodes
--   and Steady (what the collector server relies on).
-- - Store/Sql: internal/store/{collection,histogram,scan,node,store}.go over the files of
--   internal/store/sql, the store that production uses. Statements has the tables of ddl.sql and each
--   statement as a function of the tables, Rows the loops over what a query returned. View reads the
--   tables as four partial functions, Transactions is about `beginTx` with its commit and rollback;
--   Effects, Collections and Scans say what a call does to the view, and Atomic, Reads and Lists what
--   its result says of it.
-- - Collector/Types, Collector/Build, Collector/Values and Collector/Collect: the parts of
--   internal/collector/collector.go: its data, `FromCollection` with `AddCounter`, `AddGauge` and
--   `Unregister`, `counterAdd` and `gaugeSet`, and `Collect` with `collectLocked` and
--   `clearObsoleteGauges`. `collectLocked` is `collect_locked`, its loop over the rows `each_row`, the
--   loop over the values of a row `columns`, and the body of that `column`.
-- - Collector/Server: internal/collector/server.go, the table of scheduled jobs, and `lockedRefresh`
--   as `locked_refresh`, its loop as `consider_all` and the loop's body as `consider`. Its children:
--   Jobs and Current (lemmas on the loop), Refresh, Outcome, Stable and Leaks, and Lease for
--   `maybeRefresh` and what `start` has the lease and the scheduler call, in any order.
-- - Command/Collection, Command/Scan and Command/Histogram: `marshal` and `unmarshal` of
--   internal/cmd/{collection,scan,histogram}/yaml.go, between stored configurations and yaml.
--   Command/Collection/Admin, Command/Scan/Admin and Command/Histogram/Admin: the put, get, list and
--   delete commands of the admin.go beside each yaml.go, over a store, with what they print;
--   Command/Collection/Session runs those of collections over the store in memory.
--   Command/Histogram/Test, Command/Collection/Test and Command/Scan/Test: the test commands; Rounds is
--   the loop of the last two, and Trials about its end. Command/Node: internal/cmd/node/admin.go
--   and internal/cmd/initialize/admin.go. Command/Terminal is what they share, and
--   Command/Environment internal/cmd/env/env.go.
-- - Scanner/Crdb: the parser of internal/scanner/crdbv2.go and `Match` of internal/scanner/scanner.go,
--   which decide in which series a log line is counted. Scanner/Build: `FromConfig` and `addCounter`.
--   Scanner/Auth: the parser of internal/scanner/crdbv2auth.go. Scanner/Lines: `parse` of scanner.go, the
--   loop over the lines of a file, as `parse_lines`; its children Safety and Built are about its labels.
--   Scanner/Server: internal/scanner/server.go with `Start`, `scan` and `Stop` of scanner.go: the table
--   of scanners and the files they have open; its loop over the names is `consider_all`, and the loop's
--   body `consider`. Its children Update and Names are about one name,
--   Loop and Refresh about all of them, and Files about the files that are followed.
-- - Translator/Bucket: internal/translator/bucket.go; Translator/Load and Translator/Translate:
--   internal/translator/translator.go; Translator/Exact and Translator/Loops are about the
--   loops of the first, where they end and where they do not.
-- - MetricWriter: internal/metric/writer.go, with Written and Histograms for what `Copy` writes, the latter with the
--   translators of the program.
-- - Http: internal/http/server.go and internal/http/certs.go, with Refresh for its refresh.
-- - Database/Factory: internal/database/factory.go and internal/database/pool.go; Database/Pauses is
--   about the loop that opens a pool.
-- - Process: internal/cmd/server/server.go: the start of the servers, by the interface of
--   internal/server/server.go, and the events that then come; Safety is about what ends a process.
-- - External: the libraries that visus calls and that are not in the repository, as records of
--   operations: Prometheus (client_golang), Scheduler (gocron), Lru (groupcache), Database and Sql
--   (pgx), Tail, Float (float64) and Yaml (yaml.v3 with defaults). Sample has small instances with which the examples run.
-- - Prelude, Result and Dict: shared helpers. `Op S A` is a method on a state `S`: its result is a
--   value, an error or a panic. A Go map is an association list, whose order is the order in which the
--   map is ranged over; new keys come last.
--
-- Conventions and bounds:
-- - Errors are texts. Where the source formats a message, the model has a shorter one; where it wraps
--   an error, the model may keep the inner one.
-- - Texts are valid UTF-8, and so are the lines of a log file: other bytes in a log are not modelled.
-- - A nil pointer is `none`, and a read through it is `panic`.
-- - `next_node_id` is an int64 kept as its bit pattern, and wraps at 2^64; the
--   microseconds of a collection that is read from yaml wrap likewise. Other numbers of the
--   configurations are unbounded integers. A time is its number of ticks since Go's zero time.
-- - All loops are over lists, but for three. Those of internal/translator/bucket.go run on fuel, and
--   `none` says that one is still running when it is used up; Translator/Exact says how much is
--   enough, and Translator/Loops when none is. `Translate` has a bound as a parameter, beyond which it panics; the
--   source would append buckets until the memory is used up. The loop of `pgxPool` tries for ever
--   while the database is away: its fuel is the number of attempts, and `ok none` says that it is
--   still trying. The rounds of a test command are its fuel; with a count of zero it goes on until it
--   is stopped.
-- - Counts of buckets are uint64s, whose differences wrap at 2^64.
-- - A connection of the SQL store says which statements fail and after how many rows a query breaks
--   off, and which begins and commits of a transaction do. What a transaction does is kept only if it
--   is committed: its documented laws. The time `now()` of a statement is the moment of the
--   transaction, in microseconds.
-- - `lockedRefresh` and the store's methods run one after the other, as the mutexes make them. What a
--   stored pointer points to is not changed after it was stored, so pointers are values. Logs are
--   left out. The scheduler of the collector server is not nil.
-- - A store is steady at a state if reading collections there changes nothing and gives each under
--   the name that was asked for. SchedulerLaws states what the documentation of gocron says of
--   jobs. Both are hypotheses of the theorems that use them, and the samples meet them.
-- - A row's labels are one slice that the cache and the table of gauges keep and that is still filled
--   while the row is read; the model hands on both its present and its final contents. A key of the
--   cache of counters is the pair that the source writes as JSON. Rows are read to their end before
--   anything else is done on the connection.
-- - What the documentation of Prometheus says of vectors and of removed series, of float64 numbers,
--   and of yaml and its defaults, is a hypothesis of the theorems that rely on it.
--
-- A name is listed if the store lists it, and wanted if the store has a collection for it that is
-- enabled and, if its scope is the cluster, this node holds the lease. A name is settled if the store
-- has an answer for it, and, where it is wanted, the table has a job whose collector is not older.
-- The bare collector of a collection is the one with its settings and no metrics yet. A job is
-- foreign if it was put into the scheduler by others, and a tail if others follow the file, as the late
-- goroutine of a forgotten scanner does. A refresh comes to a name in the state in
-- which the names before it in the list have left the server.
--
-- Not modelled: the `Start` of each server, which wires timers and net/http; flags, settings and logging;
-- the methods that only print; and the cluster for tests.
pub mod Prelude
pub mod Result
pub mod Dict
pub mod External
pub mod Sample
pub mod Store
pub mod Collector
pub mod Command
pub mod Scanner
pub mod Translator
pub mod Database
pub mod MetricWriter
pub mod Http
pub mod Process
