-- ===== src/Lib.antt =====
-- A model of the agent SDK: the step loop of an agent, its sessions and history in a database that
-- several users share, the isolation of those users, and the parts that limit and protect calls.
--
-- How the program is put together. `Agent.run` (agent_sdk/core/agent.py) sets the user scope, a
-- context variable (agent_sdk/isolation/scope.py), opens a session, and goes round a loop: it sends
-- the history to the model, executes the tools that the answer asks for, adds their results to the
-- history, and stores a step. All that goes through the repositories (agent_sdk/db/repositories/),
-- which build their SQL with `ScopedQueryBuilder` (agent_sdk/isolation/filter.py), which adds the
-- user of the scope to every statement. The history (agent_sdk/persistence/history.py) writes its
-- SQL by hand. The rule engine, the approval workflow and the audit log (agent_sdk/governance/),
-- the checkpoints and idempotency keys (agent_sdk/durability/), the knowledge base
-- (agent_sdk/persistence/knowledge.py), the registry of agents (agent_sdk/composability/) and the
-- parts under agent_sdk/scale/ stand beside the loop.
--
-- Which file models what. Types: agent_sdk/types.py and agent_sdk/exceptions.py. Db/Sql: the text
-- of the statements that the SDK writes, as trees with placeholders, and what they mean for the
-- rows of a table. Db/Schema: the CREATE statements of agent_sdk/db/migrations.py; Db/Tables: what
-- the tables are keyed by and which rows go with a session (ON DELETE CASCADE); Db/Migrations:
-- their runner. Db/Keys: rows that are found by a key. Db/Backend: SQLite, uuid4 and the clock as
-- an interface with laws, which Db/Reference meets with tables in memory. Db/Exec: coroutines that
-- use the database, as functions of a state that holds the database, the user scope, and how often
-- uuid4 and the clock were read; an exception keeps what was written before it. Db/Repositories:
-- the four scoped repositories, and their calls in sequence (Calls), and those of the audit log,
-- the knowledge base and the registry of agents, which write their SQL by hand. Isolation: Scope,
-- Filter and Validator, named as the files of agent_sdk/isolation/; Owned, Reads and Confined are
-- about whose rows they meet. Persistence: History, SessionStore, Memory and Knowledge. Core:
-- Message (with agent_sdk/core/step.py), Session, Tool (Tool/Schema: the schema of a function's
-- signature), and Agent with Agent/Loop, where each Python function has one of the same name, and
-- the branches of `Agent.run` one each (open_session, round, respond, use_tools, finish).
-- Core/Sound is about rows that can be read back, and statements that do not raise; Agent/Totality,
-- about a run on them. Agent/Stream is `Agent.stream`, a generator whose events are a list
-- (Stream/Yield). Llm is the adapter for litellm. Governance: Rules, Approval and Audit.
-- Durability: Checkpoint, Idempotency, Replay and Recovery. Composability: Discovery. Scale:
-- CircuitBreaker, RateLimiter, Retry, Pool and Queue, whose workers and clients are a step
-- relation. The step of `stop` ends at its await: handlers that are cancelled end in later steps, by
-- returning, by raising, or with CancelledError.
--
-- Bounds and fuel. The step loop recurs on the rounds that are left, which `range(1, max_steps +
-- 1)` gives. `with_retry` recurs on its attempts. `acquire` of the rate limiter recurs on the times
-- at which its loop reads the clock, and is none when they are used up; its sleeps are listed. Waiting for an approval
-- recurs on the seconds that are left. Times, rates and tokens are natural numbers, where the
-- source has floats.
--
-- Parameters: the model's answers, whole or as events, and litellm's acompletion behind them, the
-- functions of the tools, json.dumps of what they return, which may raise, json.dumps and json.loads
-- of tool calls (a round trip is their law), the
-- jitter of a delay, what other tasks do while an approval is awaited, the encoding of checkpoints,
-- the HTTP requests of a health check, CREATE statements, and the signatures that inspect reads. A
-- dict that is stored as JSON is its JSON text, also the metadata of a message: that json.dumps
-- raises on a dict that is no JSON is left out there, and so are the two times of an entry of the
-- knowledge base. Times and factors of a retry are natural numbers, which do not overflow.
--
-- Not modelled: `search`, `truncate`, `list_namespaces` and `detect_incomplete`, whose SQL has
-- LIKE, a nested SELECT, DISTINCT and IN; the pool of database connections, execute_many and
-- transactions; the run context, which only carries references, and the row conversions of
-- agent_sdk/db/models.py, which no code calls; and the HTTP servers and clients, MCP, configuration
-- and logging, which are calls of other libraries.
pub mod Prelude
pub mod Types
pub mod Scale
pub mod Db
pub mod Isolation
pub mod Persistence
pub mod Core
pub mod Governance
pub mod Durability
pub mod Composability
