-- ===== src/TaskStore/Delivery/Sweep.antt =====
-- What `recover_stale_processing` moves back to the queue, and what it leaves.
use qwen.Prelude.{
  ℕ, ◌+◌, String, ◌≡◌, refl, ◌∙◌, ap, Bool, true, false, ◌&&◌, ◌||◌, none, List, [], ◌∷◌, ◌++◌,
  reverse, arith, length, str_eq, eq_iff, if◌then◌else◌,
}
use mathlib.Core.List.{reverse-cons, append_assoc}
use qwen.Prelude.Dict.{Dict, get, get-remove, get_or-put, get_or-put_self}
use qwen.TaskStore.{Entry, Store, queue_of}
use qwen.TaskStore.Delivery.{
  Recovery, recover_one, recover_loop, recover_items, processing_of, recover_stale_processing,
  timed_out,
}

-- The tasks of the entries that have timed out, in the table's order.
pub late_tasks : (Entry → Bool) → Dict Entry → List ℕ
late_tasks late [] = []
late_tasks late ((k, e) ∷ items) =
    let rest = late_tasks late items in if late e then e.task ∷ rest else rest

pub is_late : (Entry → Bool) → String → Dict Entry → Bool
is_late late tid [] = false
is_late late tid ((k, e) ∷ items) = late e && str_eq k tid || is_late late tid items

recover_loop_queue :
    (late : Entry → Bool) (items : Dict Entry) (r : Recovery)
    → (recover_loop late items r).queue ≡ reverse (late_tasks late items) ++ r.queue
unfolding recover_loop late_tasks
recover_loop_queue late [] r = refl
recover_loop_queue late ((k, e) ∷ items) r =
    elim (late e)
      as (λ b.
        (recover_loop late items (if b then recover_one k e r else r)).queue
        ≡ reverse (if b then e.task ∷ late_tasks late items else late_tasks late items)
          ++ r.queue) [
            | true ↦
                unfold recover_one in
                recover_loop_queue late items (recover_one k e r)
                ∙ simp (reverse-cons, append_assoc)
            | false ↦ recover_loop_queue late items r
          ]

recover_loop_count :
    (late : Entry → Bool) (items : Dict Entry) (r : Recovery)
    → (recover_loop late items r).count ≡ r.count + length (late_tasks late items)
unfolding recover_loop late_tasks recover_one
recover_loop_count late [] r = omega arith
recover_loop_count late ((k, e) ∷ items) r =
    elim (late e)
      as (λ b.
        (recover_loop late items (if b then recover_one k e r else r)).count
        ≡ r.count + length (if b then e.task ∷ late_tasks late items else late_tasks late items)) [
          | true ↦ omega (arith, recover_loop_count late items (recover_one k e r))
          | false ↦ recover_loop_count late items r
        ]

recover_loop_processing :
    (late : Entry → Bool) (tid : String) (items : Dict Entry) (r : Recovery)
    → get tid (recover_loop late items r).processing
      ≡ (if is_late late tid items then none else get tid r.processing)
unfolding recover_loop is_late recover_one
recover_loop_processing late tid [] r = refl
recover_loop_processing late tid ((k, e) ∷ items) r =
    elim (late e)
      as (λ b.
        get tid (recover_loop late items (if b then recover_one k e r else r)).processing
        ≡ (if b && str_eq k tid || is_late late tid items then none else get tid r.processing)) [
          | true ↦ ground (
            arith,
            recover_loop_processing late tid items (recover_one k e r),
            get-remove k tid r.processing,
          )
          | false ↦ recover_loop_processing late tid items r
        ]

-- The state of the loop that the sweep starts from.
abbrev sweep_start : String → Dict Entry → Store → Recovery
sweep_start d items s = record {
  queue = queue_of d s;
  tasks = s.tasks;
  processing = items;
  count = 0;
}

recover_items_lem :
    (d e tid : String) (timeout now : ℕ) (items : Dict Entry) (s : Store)
    → items ≡ processing_of d s
    → let (s', count) = recover_items d timeout now items s in
      let late = late_tasks (timed_out now timeout) items in
      (queue_of e s' ≡ (if str_eq d e then reverse late ++ queue_of d s else queue_of e s))
      × (count ≡ length late)
      × (get tid (processing_of d s')
          ≡ (if is_late (timed_out now timeout) tid items then none else get tid items))
unfolding recover_items
recover_items_lem d e tid timeout now [] s h =
    unfold late_tasks is_late in (ground (arith, eq_iff d e), refl, ground (arith, h))
recover_items_lem d e tid timeout now (item ∷ items) s h =
    let late = timed_out now timeout in
    let start = sweep_start d (item ∷ items) s in
    let r = recover_loop late (item ∷ items) start in
    (
      rw (← recover_loop_queue late (item ∷ items) start) (get_or-put d e r.queue [] s.pending),
      omega (arith, recover_loop_count late (item ∷ items) start),
      ap (get tid) (get_or-put_self d r.processing [] s.processing)
          ∙ recover_loop_processing late tid (item ∷ items) start,
    )

-- The sweep of a device puts exactly the tasks that have timed out before its queue, the last of the
-- table first, and returns their number; a task is in the processing table afterwards if it was there
-- and has not timed out; the queues of other devices stay.
pub recover_exact :
    (d e tid : String) (timeout now : ℕ) (s : Store)
    → let (s', count) = recover_stale_processing d timeout now s in
      let late = late_tasks (timed_out now timeout) (processing_of d s) in
      (queue_of e s' ≡ (if str_eq d e then reverse late ++ queue_of d s else queue_of e s))
      × (count ≡ length late)
      × (get tid (processing_of d s') ≡ (
          if is_late (timed_out now timeout) tid (processing_of d s)
          then none
          else get tid (processing_of d s)))
unfolding recover_stale_processing
recover_exact d e tid timeout now s =
    recover_items_lem d e tid timeout now (processing_of d s) s refl
