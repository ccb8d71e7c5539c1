-- ===== src/TaskStore/Delivery/Counts.antt =====
-- How many tasks are queued.
use qwen.Prelude.{
  ℕ, ◌+◌, String, ◌≡◌, refl, Bool, false, ◌||◌, none, some, List, [], ◌∷◌, ◌++◌, arith, length,
  str_eq, if◌then◌else◌, length-append, ap, sym, is_some, Option-cases, inl, inr,
}
use qwen.Prelude.Dict.{Dict, get, put, get_or, get_or-put_self}
use qwen.TaskStore.{Task, Store, queue_of}
use qwen.TaskStore.Delivery.{
  total_pending, pending_count, enqueue_pending_task, delete_first, remove_pending_task,
}

total_pending-put :
    (d : String) (queue : List ℕ) (m : Dict (List ℕ))
    → total_pending (put d queue m) + length (get_or d m []) ≡ total_pending m + length queue
unfolding total_pending put get
total_pending-put d queue [] = omega arith
total_pending-put d queue ((k, other) ∷ m) = ground (arith, total_pending-put d queue m)

-- An enqueued task is the last of its device's queue, the returned length is that queue's, and the
-- count over all devices has grown by one.
pub enqueue_exact :
    (d : String) (r now : ℕ) (s : Store)
    → let (s', n) = enqueue_pending_task d r now s in
      (queue_of d s' ≡ queue_of d s ++ r ∷ [])
      × (n ≡ pending_count (some d) s')
      × (pending_count none s' ≡ pending_count none s + 1)
unfolding enqueue_pending_task pending_count
enqueue_exact d r now s =
    let queue = queue_of d s ++ r ∷ [] in
    let at_d = get_or-put_self d queue [] s.pending in
    (
      at_d,
      ap length (sym at_d),
      omega (arith, total_pending-put d queue s.pending, length-append (queue_of d s) (r ∷ [])),
    )

pub enqueue_depth :
    (d : String) (r now : ℕ) (s : Store)
    → (enqueue_pending_task d r now s).1 ≡ length (queue_of d s) + 1
unfolding enqueue_pending_task
enqueue_depth d r now s = length-append (queue_of d s) (r ∷ [])

-- Whether the queue holds a task of that id.
pub is_queued : (ℕ → Task) → String → List ℕ → Bool
is_queued heap tid [] = false
is_queued heap tid (r ∷ queue) = str_eq (heap r).task_id tid || is_queued heap tid queue

delete_first_lem :
    (heap : ℕ → Task) (tid : String) (queue : List ℕ)
    → (is_some (delete_first heap tid queue) ≡ is_queued heap tid queue)
      × (elim (delete_first heap tid queue) [ none ↦ length queue | some rest ↦ length rest + 1 ]
          ≡ length queue)
unfolding delete_first is_queued
delete_first_lem heap tid [] = (refl, refl)
delete_first_lem heap tid (r ∷ queue) =
    let ih = delete_first_lem heap tid queue in (ground (arith, ih.0), ground (arith, ih.0, ih.1))

-- A removal succeeds exactly when the device's queue holds a task of that id, and then one task fewer
-- is queued for the device and over all devices, else as many as before; the states of the tasks stay.
pub remove_exact :
    (d tid : String) (s : Store)
    → let (s', done) = remove_pending_task d tid s in
      (done ≡ is_queued s.heap tid (queue_of d s))
      × (pending_count (some d) s' + (if done then 1 else 0) ≡ pending_count (some d) s)
      × (pending_count none s' + (if done then 1 else 0) ≡ pending_count none s)
      × (s'.tasks ≡ s.tasks)
unfolding remove_pending_task pending_count
remove_exact d tid s =
    let (found, shorter) = delete_first_lem s.heap tid (queue_of d s) in
    elim (Option-cases (delete_first s.heap tid (queue_of d s))) [
      | inl e ↦ (ground (arith, e, found), ground (arith, e), ground (arith, e), ground (arith, e))
      | inr (rest, e) ↦ (
        ground (arith, e, found),
        ground (arith, e, shorter, get_or-put_self d rest [] s.pending),
        ground (arith, e, shorter, total_pending-put d rest s.pending),
        ground (arith, e),
      )
    ]
