-- ===== src/Lib.antt =====
-- A verification library for Achilles, the local agent kernel of src/sovereign_ai. It models the
-- durable core of the kernel: what may be done (policy, approvals, grants, the quota of remote
-- engines), who may ask for it (the roster), what is to be done (jobs, runs, the dispatcher,
-- workflows), what starts it (triggers), how it is undone (transactions), who holds what meanwhile
-- (leases), what is told of it (the rooms of collaboration, the event journal and its replay), what an
-- agent loop keeps of it (the context), and what is learned from it (skills).
--
-- Parts and their sources:
--   Policy       src/sovereign_ai/kernel/policy.py and the request of kernel/types.py
--   Approvals    src/sovereign_ai/kernel/approvals.py
--   Grants       src/sovereign_ai/kernel/capability_grants.py
--   Jobs, Runs   src/sovereign_ai/kernel/jobs.py and runs.py
--   Dispatcher   src/sovereign_ai/kernel/dispatcher.py, over Jobs and Runs; its start and shutdown are
--                Dispatcher.Lifetime
--   Leases       src/sovereign_ai/resources/gpu_leases.py and workspace_leases.py
--   Roster       src/sovereign_ai/kernel/roster.py, over the stores of agent_profiles.py (Profiles) and
--                delegations.py (Delegations), and over Policy, Approvals, Grants and Jobs
--   Workflows    src/sovereign_ai/kernel/workflows.py (Dag, Definitions, Instances) and
--                workflow_service.py (Service, which creates the jobs of the steps)
--   Collaboration src/sovereign_ai/collaboration: store.py (Store, Identities, Rooms) and service.py
--                (Text, Service, Messages, Bootstrap)
--   Agents       src/sovereign_ai/agents/context.py (Context)
--   Skills       src/sovereign_ai/kernel/skills.py (Candidates, Evaluations, Versions) and
--                skill_service.py (Service), over Runs
--   Events       src/sovereign_ai/kernel/events.py, replay.py (Replay) and the event stream of
--                api/server.py (Stream)
--   Triggers     src/sovereign_ai/kernel/triggers.py and trigger_scheduler.py (Scheduler, Loop),
--                over Workflows
--   Transactions src/sovereign_ai/transactions/manager.py
--   Migrations   src/sovereign_ai/kernel/migrations.py, which sets up the tables of the stores
--   Quota        src/sovereign_ai/inference/remote_quota.py and the budget test of broker.py
--   Table, Json  the SQL statements and the JSON columns that the stores are written with
--   Prelude      lists, numbers, exceptions and sorting that the parts share
--
-- A store is the list of the rows of its table, and an operation of the class is the function of
-- the same name, which takes the rows last and returns the new rows. Where a method opens several
-- transactions, the model has one function for each, and the method composes them. A raised
-- exception is `raised` of its class, next to the state that is left behind.
--
-- Numbers of seconds are natural numbers: only comparisons and sums of them matter. A reading of
-- the clock, a fresh `uuid4().hex`, `os.getpid` and `psutil.pid_exists` are arguments; the services
-- that make many such calls draw them from two sequences (Supply). An id that
-- is in use already breaks the primary key, which raises. A text that `json.dumps` writes is read
-- back as the value it was, with its keys in order where they are sorted. Rows that a SELECT without ORDER BY returns come in insertion order.
--
-- Calls of the store of collaboration are whole: append_event reads the last hash of the room before
-- SQLite begins the transaction of its INSERT, so this holds under the lock of one process, not
-- between two processes on one database. The default now=None of the triggers is a reading of the
-- clock, one for `due` and one for each `mark_ran`.
--
-- The asyncio code of the dispatcher is a step relation: what a worker does between two awaits is
-- one step, and the answer of the executor is an argument. Two loops run on fuel. Kahn's algorithm
-- has one unit for each step of the definition; each round removes a step, so it is enough, as
-- Workflows.Dag.Kahn shows. The decimal notation of a number has one unit more than its value, and
-- Agents.Context.Digits shows that more of it changes nothing.
--
-- Not modelled: the rest of the HTTP API and the command line, model backends, the loops that drive
-- agents and their tools, the memory indexes, sandboxes and everything that starts processes. The log
-- and the texts of exceptions are left out, except where they are stored in a row.
pub mod Prelude
pub mod Table
pub mod Json
pub mod Policy
pub mod Approvals
pub mod Events
pub mod Grants
pub mod Jobs
pub mod Runs
pub mod Dispatcher
pub mod Collaboration
pub mod Agents
pub mod Skills
pub mod Leases
pub mod Workflows
pub mod Roster
pub mod Triggers
pub mod Transactions
pub mod Quota
pub mod Migrations
