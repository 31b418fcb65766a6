-- ===== src/Lib.antt =====
-- The anomaly detector of aiops-apm: a funnel that turns the metric and log signals of one round
-- into problem records, and the stores that it reads and writes.
--
-- A round (src/aiops_apm/pipeline/runner.py, `run_domain`) drops suppressed signals (l0_suppress.py),
-- runs detectors on the rest (l1_detect.py, filter_signals.py), groups the anomalies into incidents
-- (grouping.py), and for each group relates metrics, logs and changes (l2_correlate.py), counts the
-- rounds of each anomaly in the persistence store and calibrates a severity (l3_verify.py), and writes
-- a record (emit.py) that the record store merges or opens. At the end it sweeps the persistence
-- store. The reconciler (reconcile.py) later closes the records whose anomalies stayed away.
--
-- The poller (poller.py, `run_round`) opens a round, collects the signals of its targets, reads the
-- configuration (pipeline/context.py, `build_context`), runs the funnel and closes the round. The
-- handlers of the HTTP interface (router/problems.py) read and write the record store. The scheduler
-- (scheduler.py, `Scheduler.tick`) runs the rounds of the targets that are due while it holds a lease.
--
-- Prelude: shared types, Boolean tests, dictionaries, sorting, texts. Errors: exceptions as values.
-- Models: src/aiops_apm/models. Plugins: plugins/registry.py, detectors/, suppressors/. Pipeline:
-- pipeline/, one module per stage, with `Runner` for `run_domain` and `Context` for `build_context`.
-- Storage: the in-memory stores of storage/, which the source calls the reference of the PostgreSQL
-- ones; Domains has the loader of config/ too. Reconcile: reconcile.py. Poller: poller.py. Scheduler:
-- scheduler.py. Router: router/problems.py, with a module for each handler. Tests: concrete inputs.
--
-- A function keeps the source's name. A store is a value that an operation takes and returns; an
-- exception is an `err`. The handlers that resolve, ignore, decide, analyze and escalate, and a group
-- of the scheduler, return their stores beside the result, so that what they wrote before an
-- exception is kept. Dictionaries are association lists in insertion order. Times are numbers of
-- microseconds. A float is an exact multiple of 2^-1074 or a special value; comparisons are Python's.
-- The identity of a signal is its `ref`, that of an anomaly in a group its position. SHA-256, the
-- printing of numbers, the date of the clock and the arithmetic of floats are parameters. All loops are
-- structural recursion, and union-find climbs on fuel as large as the array, which is enough since
-- the depth of a node is below the number of nodes.
--
-- The outcome of a call of another service is an argument of the function that makes it. The awaits
-- of one handler or round are run without other handlers between them, unless a definition takes the
-- store that it finds after a call as an argument.
--
-- Not modelled: the PostgreSQL stores but for single statements, the collectors, the
-- signature detector, the diagnosis views and the start of the application; of the HTTP interface
-- only the handlers named in Router.
pub mod Prelude
pub mod Errors
pub mod Models
pub mod Plugins
pub mod Pipeline
pub mod Storage
pub mod Reconcile
pub mod Poller
pub mod Scheduler
pub mod Router
pub mod Tests
