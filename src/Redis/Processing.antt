-- ===== src/Redis/Processing.antt =====
-- device_gateway/redis_store_queue.py and redis_store_recover.py, the methods that end a delivery: the
-- ack, the abandonment, the expiry of old tasks and the recovery of late ones.
pub mod Recover
mod Tests
use qwen.Prelude.{
  ℕ, ◌+◌, ◌-◌, String, Bool, true, false, ◌&&◌, ◌||◌, not, Option, none, some, List, [], ◌∷◌, ◌==◌,
  if◌then◌else◌, str_eq, ltb, leb, is_some,
}
use qwen.Redis.{Task, Item, item, corrupt, TaskState, Key, pending, processing, Server}
use qwen.Redis.Cas.{cas_update}
use qwen.Redis.Queue.{without_start, remove_processing_task}

-- The test of `ack_processing` on the generation. `strict` is the deployment's flag.
abbrev pub is_stale_ack : Bool → Option ℕ → Option TaskState → Bool
is_stale_ack strict gen none = false
is_stale_ack strict (some g) (some state) = not (g == state.dispatch_gen)
is_stale_ack strict none (some state) = ltb 0 state.dispatch_gen && strict

abbrev pub is_recovered : Option TaskState → Bool
is_recovered none = false
is_recovered (some state) = is_some state.recovered_at

abbrev pub expired : TaskState → TaskState
expired state = if str_eq state.status "queued" then record state { status = "expired" } else state

abbrev pub dead_letter : TaskState → TaskState
dead_letter state = record (without_start state) { status = "dead_letter" }

-- `now - enqueued_at > max_age_sec`, for a task with a time
abbrev pub is_over_age : ℕ → ℕ → Task → Bool
is_over_age now max_age t = ltb 0 t.enqueued_at && ltb max_age (now - t.enqueued_at)

-- `_recover` of `_mark_recovered`
abbrev pub recovered : ℕ → TaskState → TaskState
recovered now state = record state {
  status = "queued";
  recovered_at = some now;
  dispatch_gen = state.dispatch_gen + 1;
  processing_started_at = 0;
}

-- `a or b`
abbrev pub or_else : ℕ → ℕ → ℕ
or_else a b = if a == 0 then b else a

abbrev pub start_of : Option TaskState → ℕ
start_of none = 0
start_of (some state) = state.processing_started_at

abbrev pub is_late : ℕ → ℕ → Option TaskState → Task → Bool
is_late now timeout state t =
    let started = or_else (start_of state) (or_else t.processing_at t.enqueued_at) in
    ltb 0 started && ltb timeout (now - started)

module _ (r : Server) where
  open r use {State, hget, lrange, lpush, lrem_one, lrem_all}

  unfoldable pub ack_processing : Bool → String → String → Option ℕ → State → State × Bool
  ack_processing strict d tid gen s =
      let state = hget tid s in
      if is_stale_ack strict gen state
      then (s, false)
      else if is_recovered state
      then ((remove_processing_task r d tid s).0, false)
      else let (s', removed) = remove_processing_task r d tid s in
        (if removed then (cas_update r tid without_start none s').0 else s', removed)

  unfoldable pub abandon_processing_task : String → String → State → State × Bool
  abandon_processing_task d tid s =
      let (s', removed) = remove_processing_task r d tid s in
      (if removed then (cas_update r tid dead_letter none s').0 else s', removed)

  -- One item of the loop of `expire_stale_queued`.
  unfoldable pub expire_item : String → ℕ → ℕ → Task → State × ℕ → State × ℕ
  expire_item d now max_age t (s, count) =
      let (s', removed) = lrem_one (pending d) (item t) s in
      if not (is_over_age now max_age t)
      then (s, count)
      else if removed == 0
      then (s', count)
      else if str_eq t.task_id ""
      then (s', count + 1)
      else ((cas_update r t.task_id expired none s').0, count + 1)

  unfoldable pub expire_items : String → ℕ → ℕ → List Item → State × ℕ → State × ℕ
  expire_items d now max_age [] acc = acc
  expire_items d now max_age (corrupt x ∷ items) acc = expire_items d now max_age items acc
  expire_items d now max_age (item t ∷ items) acc =
      expire_items d now max_age items (expire_item d now max_age t acc)

  unfoldable pub expire_stale_queued : String → ℕ → ℕ → State → State × ℕ
  expire_stale_queued d max_age now s = expire_items d now max_age (lrange (pending d) s) (s, 0)

  -- `_REQUEUE_LUA`
  unfoldable pub requeue_item_atomic : Key → Key → Item → State → State × ℕ
  requeue_item_atomic source target x s =
      let (s', removed) = lrem_all source x s in
      if ltb 0 removed then (lpush target x s', 1) else (s', 0)

  unfoldable pub mark_recovered : String → ℕ → State → State
  mark_recovered tid now s = (cas_update r tid (recovered now) none s).0

  -- One item of the loop of `recover_stale_processing`.
  unfoldable pub recover_item : String → ℕ → ℕ → Task → State × ℕ → State × ℕ
  recover_item d timeout now t (s, count) =
      let state = hget t.task_id s in
      let (s', moved) = requeue_item_atomic (processing d) (pending d) (item t) s in
      if not (is_late now timeout state t)
      then (s, count)
      else if moved == 0
      then (s', count)
      else (if is_some state then mark_recovered t.task_id now s' else s', count + 1)

  unfoldable pub recover_items : String → ℕ → ℕ → List Item → State × ℕ → State × ℕ
  recover_items d timeout now [] acc = acc
  recover_items d timeout now (corrupt x ∷ items) acc = recover_items d timeout now items acc
  recover_items d timeout now (item t ∷ items) acc =
      recover_items d timeout now items (recover_item d timeout now t acc)

  unfoldable pub recover_stale_processing : String → ℕ → ℕ → State → State × ℕ
  recover_stale_processing d timeout now s =
      recover_items d timeout now (lrange (processing d) s) (s, 0)
