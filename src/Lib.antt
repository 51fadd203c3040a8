-- ===== src/Lib.antt =====
-- A library on the OpsIncident Collector, a program that collects logs, code, runbooks and other files
-- of a project, redacts secrets in them and sends them to IncidentOps Core, or writes them to files.
--
-- A run (`run_sync` of opsincident_collector/core/pipeline.py) walks a tree of files
-- (receivers/filesystem.py), skips what the path policy, the filters (processors/) and the checkpoints
-- (state/checkpoints.py) tell it to skip, makes a document of each other file (processors/normalizer.py,
-- which redacts and classifies), and gives the documents to an exporter (exporters/). The exporter for
-- Core (exporters/incidentops_api.py) registers itself and the source through the client
-- (adapters/core_client.py), first retries the due rows of the queue of failed uploads, then uploads
-- batches, and queues the documents of a batch that fails. At last the run writes the state of the files,
-- the checkpoint and the run's own row to the state database (state/sqlite_store.py).
--
-- The agent (langgraph_agent/) runs graphs of nodes over a state, which is a `dict`: the nodes inspect a
-- tree, report on it (core/analysis.py), plan a sync, wait for an approval, sync, and ask Core. The runner
-- (langgraph_agent/runner.py) keeps each run, its events and its approvals in three tables of the state
-- database (langgraph_agent/checkpoints/sqlite_checkpointer.py), without what is sensitive. These are a
-- store of their own beside the `Machine` of a run: no other part reads or writes their tables, though they
-- lie in one file with its tables. The argument `state_db_path` of the runner, which puts the runs in
-- another file, is not modelled.
--
-- The files, by the part of opsincident_collector/ that they are about:
--   Prelude              names of the libraries, tests, lists, texts, dictionaries; actions, which are
--                        functions of a state to a result or an exception and a new state; rules for what
--                        actions preserve
--   Core                 core/: Json and Models (the data), Payload (core_payload.py), Machine (what a
--                        run reaches), Collecting (the loop of `run_sync`; Rounds, Tallies, Admissions
--                        and Types are about it), Targets (`_build_exporter`), Pipeline (`run_sync`;
--                        Memory, Effects, Identity, Runs and DryRuns are about it), Inspection
--                        (`inspect_source`, with Totals about it), Analysis and its child
--                        Seeds (analysis.py; Scores and Cases are about them)
--   Config               config/: Settings (settings.py and source_config.py) and Loader (loader.py,
--                        with Loading and Merging about it)
--   State                state/: Store and Uploads (sqlite_store.py over the tables of migrations.py; the
--                        queue of failed uploads, with WellFormed, Keyed, Retries and Order about it),
--                        Checkpoints (checkpoints.py, with Decisions about it)
--   Adapters             adapters/: Http (requests and answers), Endpoints (fallback_modes.py and
--                        core_capabilities.py), Client (core_client.py; Batch and Store are about it)
--   Processors           processors/: Batcher, Regex, FileFilter, PathPolicy, Redactor, Classifier,
--                        Hints (with Ranges about it) and Normalizer
--   Receivers            receivers/filesystem.py
--   Exporters            exporters/: ExportState and IncidentopsApi (incidentops_api.py; Recorded,
--                        Fares, Account, Kept and Calls are about them) and Local (the other three)
--   Queue                queue.py, with Clearing and Sources about it
--   Daemon               daemon/service.py, with Cycles, Health and Startup about it
--   LanggraphAgent       langgraph_agent/: RunStore and ApprovalStore (checkpoints/sqlite_checkpointer.py;
--                        Sanitizing, Runs and Approvals are about them), State and Dumps (the `dict`s of a graph), Nodes
--                        (nodes/: Local, Syncing, Bridge and Summaries; Verifying and Outputs are about them),
--                        Graphs (graphs/ and state.py), Session and Runner (`run_graph`: the rounds of
--                        its loop, and what is around it; Steps, Guards, Gate, Quiet, Rounds and
--                        Unapproved are about runs without an approval, Settling, Approved and Resumed
--                        about runs with one, OpenRows and Failures about runs that raise) and
--                        Decisions (`approve_action`, `get_graph_run_status`; Resuming is about it)
--   Tests                a small project, at which the theorems are applied
--
-- The state of a run is the record `Sync`, the variables of `run_sync`, with a `Machine`: the state
-- database as the lists of its rows, the requests sent, the clock, and what the other exporters and the
-- audit log hold. The exporter's state is the record `Export`. A method that may raise is an action on the
-- state, which keeps what was written before it raised.
--
-- Parameters, since the source does not hold them: the file system (`Files`, `Paths`), the engine of the
-- regular expressions (`Engine`), Core and httpx (`Service`: its answers may depend on all requests before;
-- `connect` makes one), the environment, pydantic's printing (`Encoder`), the
-- parser of YAML and the reading and dumping of settings (`Models`), and `hashlib` as a function in
-- `Files`. The extractors of metadata (`Extractors`) are parameters too, as they are not modelled, and with
-- them `ast`, which finds the definitions of a text. The agent (`Agent`) has the prompts, `str` of the values
-- that are no texts, and LangGraph: it runs the nodes along the edges, and of an update takes into the
-- channels what `channel_writes` gives, of which the theorems suppose that it is the keys of the schema.
--
-- Conventions: a time is in microseconds since the epoch, whose ISO texts have the same order, and time
-- passes in requests only; a column of JSON holds its value; integer settings and the depth are not
-- negative; the state database is always given to the exporter; the outputs are other databases and files
-- than the state; `lower` is on ASCII letters; `fnmatch` is without character classes and `match` is of
-- patterns that are not empty, on which it raises, and that do not begin with a slash, of which a relative
-- path matches none; the digest of a file is of its bytes, and so no function of the text decoded from them; an answer of Core that is read for a text has one there
-- or nothing. There is no fuel: each loop is over a list.
--
-- Not modelled: the command line, the servers for health and metrics, the files of the prompts, telemetry
-- and benchmarks, which are input and output around what is modelled; so far the validator of Core's
-- contract, the extractors of metadata and the agent's reports in Markdown.
pub mod Prelude
pub mod Core
pub mod Config
pub mod State
pub mod Adapters
pub mod Processors
pub mod Receivers
pub mod Exporters
pub mod Daemon
pub mod LanggraphAgent
pub mod Queue
pub mod Tests
