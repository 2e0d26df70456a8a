-- ===== src/Lib.antt =====
-- Verification library of EDEN, the agent platform under src/eden. An action that an agent or a
-- user proposes is prepared, verified, permitted, executed and journalled by one engine; what
-- follows models that pipeline and states what makes it safe.
--
-- - Prelude: Boolean tests, lists, text and Python's dict, shared by all modules.
-- - Errors: src/eden/errors/base.py, the classes of errors with their codes, parents and retry
--   hints.
-- - Effect: Python code that acts on a world and may raise; the result is ok, an EdenError, or
--   another exception, beside the world as it was left.
-- - Enums: src/eden/config/enums.py.
-- - Execution.Types: src/eden/execution/types.py and the ExecutionConfig of
--   src/eden/config/schema.py.
-- - Execution.Permissions: src/eden/execution/permissions.py. `decide` is PolicyEngine.decide,
--   and a gate is a record of its name and its answer.
-- - Execution.Verification: src/eden/execution/verification.py. Rules holds the seven rules,
--   Scope the containment of paths, and the parent the composite verifier; Aggregate and Accepted
--   hold what they guarantee.
-- - Execution.Engine: src/eden/execution/engine.py. Base holds the engine and the steps that its
--   pipeline shares, the parent `submit`, `submit_transaction` and `rollback`; Gated, Audit,
--   Transaction, Saga and Stranded hold what they guarantee.
-- - Execution.Handlers: src/eden/execution/handlers.py. Base holds the machine that the handlers
--   act on and what they read of an action, the parent the handlers of files, Command that of
--   processes, Newlines how a text is read; Plans, Undo, ReadOnly and Restores hold what a
--   rollback restores.
-- - Execution.Journal: src/eden/execution/journal.py, the in-memory journal and the file journal.
-- - Gateway.Health: src/eden/gateway/health.py. A record of a provider and the tracker's calls on
--   it; Breaker holds the invariant of the circuit, Tracker any sequence of calls, Recovery how a
--   circuit opens and closes.
-- - Gateway.Routing: src/eden/gateway/router/omni_router.py and the failover of
--   src/eden/gateway/client.py, over the interface of src/eden/gateway/provider.py and the types
--   of src/eden/core/types.py. Eligible holds which providers a request may reach, Failover the
--   steps of the failover loop, Calls how many calls it makes and what the client answers.
-- - Automation: src/eden/automation/scheduler.py. Triggers and Rules hold what is registered, the
--   parent the scheduler's calls; History the calls in any order and the bound of the history,
--   Contained, Signals and Delayed what a tick runs.
-- - Core.Registry: src/eden/core/registry.py, the named factories. Core.Container:
--   src/eden/core/container.py, the resolution of dependencies; Terminates holds that it ends,
--   Singletons that an instance is built once. Core.Kernel: src/eden/core/kernel.py, the start
--   and stop of the subsystems; Lifecycle holds what the kernel relies on in a component and what
--   its loops come to, Released what a start and a session leave running.
-- - Memory.Records and Memory.Stored: src/eden/memory/types.py, the records and their stored
--   form. Memory.ShortTerm: ShortTermMemory of src/eden/memory/stores.py; Eviction and Bounded
--   hold what it forgets and keeps. Memory.Search: the search of src/eden/memory/base.py, and
--   Best what it returns. Memory.Repository: src/eden/memory/repository.py; Paths, InMemory and
--   Jsonl hold the two repositories and Refines that they agree. Memory.Conversation:
--   ConversationMemory of src/eden/memory/conversation.py; Window holds which turns a prompt has,
--   Cache what a restart hides. Memory.Facts: ProjectMemory of the same file, over the long-term
--   store of src/eden/memory/stores.py; Found holds what it looks up, Replaced and Remembered
--   what a new value leaves.
-- - Hardware.Device: src/eden/hardware/device.py; Guarded holds what is ever written to a device,
--   States its state machine. Hardware.Fleet and Hardware.Handler: DeviceManager and
--   DeviceCommandHandler of src/eden/hardware/manager.py; Startup holds what a start does with
--   devices that fail, Restores that a rollback puts a value back.
-- - Agents: src/eden/agents/types.py; Agents.Context: what src/eden/agents/context.py lets an
--   agent do, and Agents.Search its file search; Roots holds where it may walk, Confined where
--   the hits lie, and what symbolic links make of that. Agents.Base and Agents.Lifecycle:
--   src/eden/agents/base.py; Steps holds what a plan's steps come to, Reports what a run returns.
--   Agents.Orchestrator: src/eden/agents/orchestrator.py; Routed holds who takes a task.
-- - Utils.Retry: the retry of src/eden/utils/async_tools.py; Bounded holds what it costs at most.
--   Utils.Bucket: the token bucket of src/eden/utils/ratelimit.py; Quota holds what it grants,
--   Ends when acquire returns.
-- - Config.Sources: src/eden/config/sources.py and the merging of src/eden/config/loader.py;
--   Lookup holds what an environment variable sets, Precedence which source wins.
--
-- The world is a parameter: a type `W` on which handlers, gates, the journal and the clock act,
-- each a function from the world to a result and the world after it. Theorems about effects speak
-- of a view of the world and name what they ask of the handlers, which
-- src/eden/execution/handlers.py documents: preparing has no side effect, and a rollback plan
-- undoes what the action did. A coroutine is modelled as the sequence of its own effects; two
-- calls of the engine do not interleave in the model, and the due rules of a tick run one after
-- another.
--
-- Numbers are natural numbers; times are natural numbers too, read from the clock. A score or an
-- importance in [0, 1] is a number of millionths, rounded down. A latency is a value of any type,
-- with the floating-point operations that the tracker needs. Paths, globbing and the user's home
-- come from the host, a record of functions. Every loop is structural recursion on the list that
-- it walks, so no fuel is needed, but for the resolution of a dependency, which is bounded by a
-- depth: one more than the number of bindings is enough, since no name is begun twice; and for
-- the wait for a token, whose second pass succeeds unless none can. The walk up the base classes
-- of an error takes four steps, which is enough since the classes are three deep.
--
-- Not modelled: log lines, the JSON forms of records, the context and the cause of an error, and
-- the parts of the program that only move data in and out of it (the providers' HTTP requests,
-- the coercion of the configuration, the server and the command line).
pub mod Prelude
pub mod Errors
pub mod Effect
pub mod Enums
pub mod Execution
pub mod Gateway
pub mod Automation
pub mod Core
pub mod Memory
pub mod Hardware
pub mod Agents
pub mod Utils
pub mod Config
