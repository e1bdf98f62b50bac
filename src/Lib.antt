-- ===== src/Lib.antt =====
-- Verification of the quota tracker in src/quota_monitor.
--
-- The program collects an organisation's usage of the OpenAI API into a local database, warns
-- when quotas are nearly used, and updates itself. A scheduler calls a collection from time to
-- time; the collection splits a range of time into UTC days and stores the usage of each day as one
-- slice of a run; observations of usage go through the alert rules; the updater drives an update
-- from an authenticated manifest through two consents, a health check and recovery. Profiles keep
-- the credentials of several organisations apart, and a lock file keeps a second instance out.
--
-- The files follow the program's parts.
--   Base: what the other modules share: Boolean tests on numbers, lists, predicates on lists, texts
--     as lists of code points, and a stable sort by a test.
--   SemVer (src/quota_monitor/semver.py): the type, `version_lt` and `version_eq` for `__lt__` and
--     `__eq__`; Grammar has the regular expression, `parse` and `str`. Digits of other scripts are
--     a parameter, of which only the ASCII part is assumed.
--   Alerts (alerts.py): `AlertEvaluator` with its two tables as association lists; `evaluate` is one
--     step, which returns the new evaluator and the events. Percentages are natural numbers in any
--     fixed unit, in which `hundred` is the whole. Storage and Notifications (alert_storage.py) have
--     the persistent `SQLiteAlertState`: its tables as lists of rows, a method as one transaction.
--     As in its table, a record of an alert is under a profile, a rule and a day, not a project.
--   Scheduler (scheduler.py): `CollectionScheduler`; the locked parts of `_run` are `begin` and
--     `finish`, and Steps lets threads interleave them. Times are whole units.
--   History: Ranges (sync_service.py) has the day slices, Coverage (database.py) the test whether
--     intervals cover a range, and Runs (database.py) the tables of runs and slices, where each
--     transaction is a function to a new store or an error. Usage has the usage rows under a staged
--     merge, whose amounts are `Amount`: a 64-bit integer of SQLite or, past it, a REAL, of which
--     the value is not modelled. Reconcile joins both in `reconcile_slice`. Sync (sync_service.py) is the loop of
--     `UsageSyncService.sync` over them: a call returns the database and a result or an error.
--   Update: the records of update_manifest.py, the judgement of a manifest by `UpdateChecker`, and
--     the verification of a file; Engine (update_engine.py) has the journal and all operations of
--     `UpdateEngine`, each of which returns the states of the disk that it passes through.
--     Download has the downloader and the verification of a stream, chunk by chunk.
--   Locks (platform_adapters/instance_lock.py): the lock file of `FileInstanceLock`, `acquire` and
--     `release`; Exclusion has several processes whose calls do not overlap, and Race the steps of
--     `acquire` interleaved.
--   Profiles (profiles/): domain.py, Repository (repository.py) and Service (service.py), whose calls
--     return a result and the new repository or an error; Sqlite (sqlite_repository.py) is the
--     repository over the rows of its table. Commands has sequences of calls of both repositories.
--     Scoped (scoped_repository.py) is the dictionary of dictionaries, and ScopedCalls has its calls
--     and the map that it stands for, with the number of records of each profile.
--   Json: the values that `json.loads` gives.
--   Upstream (upstream_adapter.py): the checks of a page, Parsing has `parse_usage_buckets`, and
--     Fetching the loop of `fetch_usage_slice`; the client is a function of the number of the call
--     and the cursor.
--   Usage (usage_service.py): the catalog's index (model_catalog.py) and the service tiers
--     (classification.py); Rows has the checks of a result, and Summary `summarize_usage`.
--
-- Loops are structural, but for two. The loop of `utc_day_slices` runs on fuel, of which it gets
-- the length of the range in seconds; each round moves the cursor by a second at least, so that
-- this is enough. The loop of `fetch_usage_slice` gets a unit of fuel for each page; where the
-- cursors of the service come from a finite list, one more than its length is enough, since no
-- cursor is followed twice. Python's integers are unbounded, and natural numbers here, as the
-- source refuses negative ones. SQLite's integers have 64 bits: an amount of usage that does not
-- fit is refused with `overflow_error`, and a sum of amounts that does not fit is a REAL. Times, the
-- numbers of pages and their sums are taken to fit.
--
-- Not modelled: SQLite below the statements of the operations, the file system below single steps,
-- the network, cryptography (a hash is a parameter), the arithmetic of floats (prices are a
-- parameter), and the parts of the program that are not listed here, among them the queries on
-- usage, configuration, the HTTP server, the other platform adapters and the browser client.
pub mod Base
pub mod SemVer
pub mod Alerts
pub mod Scheduler
pub mod History
pub mod Update
pub mod Json
pub mod Upstream
pub mod Usage
pub mod Locks
pub mod Profiles
