-- ===== src/Lib.antt =====
-- Verification of the device cloud for drawing machines: the core that keeps a task from its creation
-- to its end.
--
-- The program. A task is planned, approved, queued for a device, popped by a delivery channel,
-- executed by the machine, and ended by a motion event. Three components keep its state, and each
-- is the truth of one aspect:
--   * the task store (device_gateway/memory_store.py) has a queue of pending tasks for each device,
--     a processing table of the tasks that a channel has taken, and a table of the tasks' states;
--   * the ledger (device_ledger/) is an append-only list of typed events, from which projections
--     replay a task's state;
--   * the workflow orchestrator (device_workflow/) allows or refuses a transition of a task, by what
--     the ledger says, and appends the event of each transition.
--
-- The files.
--   * Prelude.antt and Prelude/: the shared names, Boolean tests, lists, dicts as association lists in
--     insertion order, and a stable sort.
--   * Motion.antt: the motion event that store, ledger and workflow read.
--   * TaskStore.antt: the data and the queries of InMemoryDeviceTaskStore. TaskStore/Delivery.antt:
--     enqueue_pending_task, pop_pending_tasks, requeue_pending_tasks, ack_processing,
--     recover_stale_processing and the other methods that move tasks; its children are the proofs.
--   * Ledger.antt: device_ledger/events.py and store.py, with replay_task in Ledger/Replay.antt.
--     Ledger/Projection.antt: device_ledger/projection.py.
--   * Redis.antt: what the Redis backend (device_gateway/redis_store.py) relies on of the server, as a
--     record of commands and their documented laws, with an instance on dicts in Redis/Table.antt.
--     Redis/Cas.antt: redis_cas.py and _cas_update of redis_store_helpers.py; Redis/Queue.antt and
--     Redis/Processing.antt: redis_store_queue.py and redis_store_recover.py; Redis/Store.antt:
--     redis_store.py. Redis/Concurrent.antt runs the methods of several processes command by command.
--   * Workflow/State.antt: device_workflow/state.py. Workflow/Lock.antt: ThreadTaskLock of lock.py.
--     Workflow/RedisLock.antt: RedisTaskLock, over the commands of the server that it uses.
--     Workflow/Orchestrator.antt: WorkflowOrchestrator of orchestrator.py; its children are the proofs.
--   * Startup.antt: recover_inflight_tasks of device_workflow/startup_recovery.py, which compares store
--     and workflow when the server starts.
--   * Recovery.antt: device_intelligence/recovery.py. Events.antt: record_motion_event and
--     execute_recovery of device_gateway/task_events.py, which write to all three components.
--   * MotionParams.antt: the limits of a device profile (device_intelligence/safety.py) on a task's
--     parameters, with the clamp and the caps around their validation; MotionParams/Path.antt and
--     Capability.antt: device_gateway/path_validator.py; MotionParams/Move.antt: move_validator.py.
--   * Policy.antt: device_policy/engine.py and device_protocol_registry.py. Policy/Version.antt:
--     device_gateway/_version_compare.py.
--   * TaskCreation.antt: task_creation.py, task_creation_builders.py and task_creation_errors.py of
--     device_gateway/, which check a voice task, make the motion task and take it to the workflow.
--   * Sessions.antt: SessionRegistry of device_gateway/sessions.py, which gives the tasks of a lost
--     connection back to the task store.
--   * Dispatch.antt: routes/device_gateway_dispatch.py, delivery_status.py and task_lifecycle.py of
--     device_gateway/, which push a queue to the connection of its device.
--   * TaskRouting.antt: create_and_route_task of device_gateway/tasks.py, which takes a request from its
--     creation to the queue and the push.
--   * Families.antt: device_gateway/family_approval_store.py and the tables of protocol_families.py.
--   * PathOptimizer.antt: device_gateway/path_optimizer.py, the order of the strokes of a drawing, and
--     PathOptimizer/Compress.antt its simplification.
--   * RateLimit.antt: RateLimiter of device_logic/rate_limit.py. Quota.antt: QuotaTracker of
--     client_keys/quota.py. Ticket.antt: ws_ticket.py. StatusTicket.antt:
--     app_status_ws_ticket.py. These guard the routes, each on its own.
--
-- State and operations. A method that runs under a lock is one function from the object's state to the
-- new state and the result; an exception is a result of its own. Task dicts are shared by reference
-- between the queues, the tables and the callers, so the store has a heap. Methods that run in any
-- order are steps of a relation, and what holds for all orders is proved by induction on it. Times are
-- natural numbers of microseconds, and a text of a time is its list of code points. A finite
-- float is its multiple of 2 ^ -1074. The clock, uuid4
-- and the deployment's flags are arguments. All loops are structural on the list or the limit, but for
-- the push of a queue (Dispatch.antt), whose fuel is the length of the queue and one more, and
-- the stack of PathOptimizer/Compress.antt, whose fuel is twice the length of the path and one more;
-- Dispatch/Drain.antt and PathOptimizer/Compress/Within.antt prove these enough. No other coroutine runs between the awaits of a push.
--
-- A Redis command is atomic, and so is a Lua script; a key's time to live is modelled for the locks
-- only. In Redis/Cas/Races.antt a round of _cas_update is two commands, its read and its write, and any
-- other command may come between. The three rounds of _cas_update are the source's bound.
--
-- Not modelled: the task index of the Redis store, the HTTP routes and websockets, drawing, fonts, images and voice,
-- the databases, and what only logs or counts. An int of a request that no float can hold is refused
-- by the model of the validation where the code raises OverflowError. The JSON shape of a payload is reduced to the keys that
-- the modelled code reads.
pub mod Prelude
pub mod Motion
pub mod TaskStore
pub mod Ledger
pub mod Workflow
pub mod Startup
pub mod Recovery
pub mod Events
pub mod MotionParams
pub mod Policy
pub mod TaskCreation
pub mod RateLimit
pub mod Quota
pub mod Ticket
pub mod StatusTicket
pub mod Sessions
pub mod Dispatch
pub mod TaskRouting
pub mod Redis
pub mod Families
pub mod PathOptimizer
