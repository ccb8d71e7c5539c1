-- ===== src/Redis/Queue/Pop.antt =====
-- Which tasks `pop_pending_tasks` of the Redis store gives back, and what it leaves in the queue.
use qwen.Prelude.{
  true, false, ◌&&◌, is_some, if◌then◌else◌, ℕ, zero, suc, ◌≡◌, refl, ap, ◌∙◌, String, Bool, Option,
  none, some, List, [], ◌∷◌, map, arith, str_eq, eq_refl, take, drop, select, inl, inr, Bool-cases,
}
use qwen.Redis.{Task, Item, item, corrupt, pending, processing, Server}
use qwen.Redis.Cas.Changes.{lrange-cas_update}
use qwen.Redis.Queue.{
  ParamsCheck, validate_task_schema, lmove_many, drop_task, gate_popped_tasks, mark_failed,
  dispatch, dispatch_tasks, dispatch_gated, pop_pending_tasks,
}

-- Whether the gate can judge an item: a task whose params the validation does not raise at.
abbrev pub is_readable : ParamsCheck → Item → Bool
is_readable params_ok (corrupt x) = false
is_readable params_ok (item t) = is_some (validate_task_schema params_ok t)

abbrev pub is_valid : ParamsCheck → Task → Bool
is_valid params_ok t = elim (validate_task_schema params_ok t) [ none ↦ false | some v ↦ v ]

abbrev pub tasks_of : List Item → List Task
tasks_of [] = []
tasks_of (corrupt x ∷ items) = tasks_of items
tasks_of (item t ∷ items) = t ∷ tasks_of items

unfoldable pub all_readable : ParamsCheck → List Item → Bool
all_readable params_ok [] = true
all_readable params_ok (x ∷ items) = is_readable params_ok x && all_readable params_ok items

-- The task as it was queued, without the stamp of its generation.
abbrev pub unstamped : Task → Task
unstamped t = record t { dispatch_gen = none }

-- The valid tasks of the items, unless one of them makes the gate raise.
abbrev pub valid_of : ParamsCheck → List Item → Option (List Task)
valid_of params_ok items =
    if all_readable params_ok items
    then some (select (is_valid params_ok) (tasks_of items))
    else none

abbrev pub unstamped_all : Option (List Task) → Option (List Task)
unstamped_all none = none
unstamped_all (some ts) = some (map unstamped ts)

module _ (r : Server) (params_ok : ParamsCheck) (d : String) where
  open r use {State, hget, lrange, lmove, lmove-moved, lrange-lmove, lrange-lrem_one}

  moved_lem :
      (n : ℕ) (items : List Item) (s : State)
      → lrange (pending d) s ≡ items
      → ((lmove_many r n (pending d) (processing d) s).1 ≡ take n items)
        × (lrange (pending d) (lmove_many r n (pending d) (processing d) s).0 ≡ drop n items)
  unfolding lmove_many
  moved_lem zero items s h = (refl, h)
  moved_lem (suc n) [] s h =
      rw (lmove_many, lmove-moved (pending d) (processing d) s, h)
        (refl, lrange-lmove (pending d) (processing d) (pending d) s refl ∙ rw (eq_refl d, h) refl)
  moved_lem (suc n) (x ∷ items) s h =
      let rest =
        moved_lem n items (lmove (pending d) (processing d) s).0
          (lrange-lmove (pending d) (processing d) (pending d) s refl ∙ rw (eq_refl d, h) refl) in
      rw (lmove_many, lmove-moved (pending d) (processing d) s, h)
        (ap (λ xs. x ∷ xs) rest.0, rest.1)

  lrange-drop_task :
      (t : Task) (s : State) → lrange (pending d) (drop_task r d t s) ≡ lrange (pending d) s
  unfolding drop_task
  lrange-drop_task t s =
      let removed : lrange (pending d) (r.lrem_one (processing d) (item t) s).0
          ≡ lrange (pending d) s =
        lrange-lrem_one (pending d) (processing d) (item t) s in
      elim (Bool-cases (str_eq t.task_id "")) [
        | inl e ↦ rw e removed
        | inr e ↦ rw e (lrange-cas_update r t.task_id mark_failed none _ (pending d) ∙ removed)
      ]

  gate-tasks :
      (items : List Item) (s : State)
      → (gate_popped_tasks r params_ok d items s).1 ≡ valid_of params_ok items
  unfolding gate_popped_tasks all_readable
  gate-tasks [] s = refl
  gate-tasks (corrupt x ∷ items) s = refl
  gate-tasks (item t ∷ items) s =
      ground (arith, gate-tasks items s, gate-tasks items (drop_task r d t s))

  lrange-gate :
      (items : List Item) (s : State)
      → lrange (pending d) (gate_popped_tasks r params_ok d items s).0 ≡ lrange (pending d) s
  unfolding gate_popped_tasks
  lrange-gate [] s = refl
  lrange-gate (corrupt x ∷ items) s = refl
  lrange-gate (item t ∷ items) s =
      ground
        (arith, lrange-gate items s, lrange-gate items (drop_task r d t s), lrange-drop_task t s)

  dispatch-unstamped :
      (started : ℕ) (ts : List Task) (s : State)
      → map unstamped (dispatch_tasks r started ts s).1 ≡ map unstamped ts
  unfolding dispatch_tasks
  dispatch-unstamped started [] s = refl
  dispatch-unstamped started (t ∷ ts) s =
      ap (λ rest. unstamped t ∷ rest) (dispatch-unstamped started ts _)

  lrange-dispatch :
      (started : ℕ) (ts : List Task) (s : State)
      → lrange (pending d) (dispatch_tasks r started ts s).0 ≡ lrange (pending d) s
  unfolding dispatch_tasks
  lrange-dispatch started [] s = refl
  lrange-dispatch started (t ∷ ts) s =
      lrange-dispatch started ts _
      ∙ lrange-cas_update r t.task_id (dispatch t started) _ s (pending d)

  dispatch_gated_lem :
      (now : ℕ) (s : State) (o : Option (List Task))
      → (unstamped_all (dispatch_gated r now (s, o)).1 ≡ unstamped_all o)
        × (lrange (pending d) (dispatch_gated r now (s, o)).0 ≡ lrange (pending d) s)
  dispatch_gated_lem now s none = (refl, refl)
  dispatch_gated_lem now s (some ts) =
      (ap some (dispatch-unstamped now ts s), lrange-dispatch now ts s)

  -- A pop takes at most `limit` items from the head of the queue. It gives back the valid tasks of them,
  -- in their order and as they were queued but for the stamp of their generation, and leaves the rest of the queue
  -- as it was. Where one of the items taken is no JSON object, or the validation of its params raises, the
  -- pop raises, and the items have left the queue all the same.
  pub pop_exact :
      (limit now : ℕ) (s : State)
      → let (s', answer) = pop_pending_tasks r params_ok d limit now s in
        (unstamped_all answer
          ≡ unstamped_all (valid_of params_ok (take limit (lrange (pending d) s))))
        × (lrange (pending d) s' ≡ drop limit (lrange (pending d) s))
  unfolding pop_pending_tasks
  pop_exact limit now s =
      let queue = lrange (pending d) s in
      let (items_moved, queue_moved) = moved_lem limit queue s refl in
      let (s', items) = lmove_many r limit (pending d) (processing d) s in
      let gate = gate_popped_tasks r params_ok d items s' in
      let (answered, left) = dispatch_gated_lem now gate.0 gate.1 in
      (
        answered
            ∙ ap unstamped_all (gate-tasks items s')
            ∙ ap (λ (xs : List Item). unstamped_all (valid_of params_ok xs)) items_moved,
        left ∙ lrange-gate items s' ∙ queue_moved,
      )
