-- ===== src/Redis/Queue/Enqueue.antt =====
-- What `enqueue_pending_task` of the Redis store changes.
use qwen.Prelude.{
  ℕ, ◌+◌, ◌≡◌, refl, ap, ◌∙◌, String, [], ◌∷◌, ◌++◌, if◌then◌else◌, str_eq, eq_refl, length,
  length-append,
}
use qwen.Redis.{Task, item, Key, pending, key_eq, Server}
use qwen.Redis.Cas.Changes.{changed, hget-cas_update, lrange-cas_update}
use qwen.Redis.Queue.{set_task, enqueue_pending_task}

-- The answer is the length of the device's queue, to whose end the task goes with its time; every
-- other list stays. The state of the task, if it is there, becomes queued with this task; a state that
-- is not there is not made, and every other state stays.
pub enqueue_effects :
    (r : Server) (d : String) (now : ℕ) (task : Task) (s : r.State)
    → let s' = (enqueue_pending_task r d now task s).0 in
      let t = record task { enqueued_at = now } in
      ((enqueue_pending_task r d now task s).1 ≡ length (r.lrange (pending d) s) + 1)
      × ((q : Key)
          → r.lrange q s'
            ≡ (if key_eq (pending d) q then r.lrange q s ++ item t ∷ [] else r.lrange q s))
      × ((k : String)
          → r.hget k s' ≡ (
              if str_eq task.task_id k
              then changed (set_task t "queued") (r.hget k s)
              else r.hget k s))
unfolding enqueue_pending_task
enqueue_effects r d now task s =
    let t = record task { enqueued_at = now } in
    let s' = r.rpush (pending d) (item t) s in
    let here : r.lrange (pending d) s' ≡ r.lrange (pending d) s ++ item t ∷ [] =
      r.lrange-rpush (pending d) (pending d) (item t) s ∙ rw (eq_refl d) refl in
    (
      ap length here ∙ length-append (r.lrange (pending d) s) (item t ∷ []),
      λ q.
          lrange-cas_update r t.task_id (set_task t "queued") _ s' q
          ∙ r.lrange-rpush q (pending d) (item t) s,
      λ k.
          hget-cas_update r t.task_id (set_task t "queued") _ s' k
          ∙ rw (r.hget-rpush k (pending d) (item t) s) refl,
    )
