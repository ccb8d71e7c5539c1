-- ===== src/Dispatch.antt =====
-- routes/device_gateway_dispatch.py and device_gateway/delivery_status.py: the push of a device's queue
-- to its connection, over the session registry, the task store (in memory) and the workflow.
-- `sends` says whether `send_json` of a task succeeds, and a function of the task gives the id and the
-- time of the ledger event that its dispatch appends. No other coroutine runs between the awaits.
pub mod Charged
pub mod Drain
pub mod Failure
mod Tests
use qwen.Prelude.{
  ℕ, zero, suc, ◌+◌, String, Bool, true, false, not, Option, none, some, List, [], ◌∷◌, ◌++◌, ltb,
  if◌then◌else◌, str_eq, length,
}
use qwen.Prelude.Dict.{Dict, get}
use qwen.TaskStore.{Store, queue_of}
use qwen.TaskStore.Delivery
use qwen.TaskStore.Delivery.{
  pop_pending_tasks, requeue_pending_tasks, increment_retry_count, abandon_processing_task,
  pending_count,
}
use qwen.Workflow.State.{TaskState, ready_to_dispatch, dispatched, value}
use qwen.Workflow.Orchestrator.{Orchestrator, Result, ok, err, get_state, advance}
use qwen.Events.{Stamp}
use qwen.Sessions
use qwen.Sessions.{Registry, take_outstanding, unregister}

-- `frames` are the tasks that were sent, each with its session.
pub record Channel : Type 0 where
  pub registry : Registry
  pub workflow : Orchestrator
  pub frames : List (ℕ × ℕ)

abbrev pub store_of : Channel → Store
store_of c = c.registry.store

abbrev pub set_store : Store → Channel → Channel
set_store s c = record c { registry = record c.registry { store = s } }

abbrev pub device_of : ℕ → Channel → String
device_of r c = (c.registry.heap r).device_id

abbrev pub max_task_retries : ℕ
max_task_retries = 3

abbrev is_ready : Result TaskState → Bool
is_ready (ok state) = str_eq (value state) (value ready_to_dispatch)
is_ready (err e) = false

-- `mark_task_dispatched` of device_gateway/task_lifecycle.py; an exception of the workflow is caught.
unfoldable pub mark_task_dispatched : String → Stamp → Channel → Channel
mark_task_dispatched tid stamp c =
    let c' = set_store (Delivery.mark_task_dispatched tid (store_of c)) c in
    let (w, current) = get_state tid c.workflow in
    record c' {
      workflow =
          if is_ready current then (advance tid dispatched stamp.event_id stamp.now w).0 else w;
    }

-- The loop of `requeue_session_outstanding`: the tasks that are put back.
unfoldable pub charge_retries : String → List ℕ → Store → Store × List ℕ
charge_retries d [] s = (s, [])
charge_retries d (t ∷ ts) s =
    let tid = (s.heap t).task_id in
    let (counted, retry_count) = increment_retry_count tid s in
    let dead = ltb max_task_retries retry_count in
    let rest =
      charge_retries d ts (if dead then (abandon_processing_task d tid counted).0 else counted) in
    (rest.0, if dead then rest.1 else t ∷ rest.1)

abbrev pub put_back : String → Store × List ℕ → Store × ℕ
put_back d (s, []) = (s, pending_count (some d) s)
put_back d (s, t ∷ ts) = requeue_pending_tasks d (t ∷ ts) s

unfoldable pub requeue_session_outstanding : ℕ → List ℕ → Channel → Channel × ℕ
requeue_session_outstanding r extra c =
    let (g, outstanding) = take_outstanding r c.registry in
    let (s, depth) =
      put_back (device_of r c) (charge_retries (device_of r c) (outstanding ++ extra) g.store) in
    (record c { registry = record g { store = s } }, depth)

abbrev pub requeue_rest : ℕ → List ℕ → Channel → Channel
requeue_rest r [] c = c
requeue_rest r (t ∷ ts) c = (requeue_session_outstanding r (t ∷ ts) c).0

module _ (sends : ℕ → Bool) (stamp : ℕ → Stamp) where
  unfoldable pub dispatch_task_to_session : ℕ → ℕ → Channel → Channel × Bool
  dispatch_task_to_session r t c =
      if sends t
      then (let tid = ((store_of c).heap t).task_id in
          let sent = record c {
            registry = Sessions.mark_dispatched r t c.registry;
            frames = c.frames ++ (r, t) ∷ [];
          } in
          (mark_task_dispatched tid (stamp t) sent, true))
      else (let g = unregister (device_of r c) (some (c.registry.heap r).websocket) c.registry in
          ((requeue_session_outstanding r (t ∷ []) (record c { registry = g })).0, false))

  -- The tasks of one batch.
  unfoldable pub dispatch_batch : ℕ → List ℕ → Channel → Channel × Bool
  dispatch_batch r [] c = (c, true)
  dispatch_batch r (t ∷ ts) c =
      let (c', sent) = dispatch_task_to_session r t c in
      let rest = dispatch_batch r ts c' in if sent then rest else (requeue_rest r ts c', false)

  -- The loop of `drain_pending_tasks`; `none` where the fuel runs out. Its pops have the default limit.
  unfoldable pub drain_loop : ℕ → ℕ → ℕ → Channel → Option (Channel × Bool)
  drain_loop zero r now c = none
  drain_loop (suc fuel) r now c =
      let (s, tasks) = pop_pending_tasks (device_of r c) 16 now (store_of c) in
      let popped = set_store s c in
      elim tasks [
        | [] ↦ some (popped, true)
        | t ∷ ts ↦
            let (c', sent) = dispatch_batch r (t ∷ ts) popped in
            let rest = drain_loop fuel r now c' in if sent then rest else some (c', false)
      ]

  -- One round for each task of the queue, and one that finds it empty, are enough.
  unfoldable pub drain_pending_tasks : ℕ → ℕ → Channel → Option (Channel × Bool)
  drain_pending_tasks r now c =
      drain_loop (suc (length (queue_of (device_of r c) (store_of c)))) r now c

  unfoldable pub try_deliver_pending : String → ℕ → Channel → Option (Channel × Bool)
  try_deliver_pending d now c = elim (get d c.registry.sessions) [
    | none ↦ some (c, false)
    | some r ↦ drain_pending_tasks r now c
  ]

  -- `try_deliver_and_classify`
  unfoldable pub try_deliver_and_classify : String → ℕ → Channel → Option (Channel × Bool × String)
  try_deliver_and_classify d now c = elim (try_deliver_pending d now c) [
    | none ↦ none
    | some (c', true) ↦ some (c', true, "sent")
    | some (c', false) ↦ elim (get d c'.registry.sessions) [
      | none ↦ some (c', false, "queued_no_delivery")
      | some r ↦ some (c', false, "queued")
    ]
  ]
