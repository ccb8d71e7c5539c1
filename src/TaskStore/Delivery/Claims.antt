-- ===== src/TaskStore/Delivery/Claims.antt =====
-- What `pop_pending_tasks` records of the tasks that it returns.
use qwen.Prelude.{
  ℕ, zero, suc, String, ◌≡◌, refl, sym, subst, inl, inr, some, List, [], ◌∷◌, arith, All, All-imp,
  Bool-cases, str_eq, eq_refl, eq_iff,
}
use qwen.Prelude.Dict.{get, get_or, get-put_self, get-put_ne, get_or-put_self}
use qwen.TaskStore.{TaskState, Entry, Store, new_state, queue_of}
use qwen.TaskStore.Delivery.{Claim, claim, pop_loop, pop_queue, pop_pending_tasks, processing_of}

-- The task of that id is in the processing table since `now`, its state has the same time and is
-- `dispatching`, and the task object
-- there has the state's generation for a stamp.
pub record IsClaimed (now : ℕ) (tid : String) (c : Claim) : Type 0 where
  pub entry : Entry
  pub state : TaskState
  pub at_entry : get tid c.processing ≡ some entry
  pub at_state : get tid c.tasks ≡ some state
  pub started : entry.processing_started_at ≡ now
  pub status : state.status ≡ "dispatching"
  pub since : state.processing_started_at ≡ some now
  pub own : (c.heap entry.task).task_id ≡ tid
  pub stamped : (c.heap entry.task).dispatch_gen ≡ some state.dispatch_gen

task_id-claim : (now r q : ℕ) (c : Claim) → ((claim now r c).heap q).task_id ≡ (c.heap q).task_id
unfolding claim
task_id-claim now r q c = ground arith

claim-IsClaimed_self : (now r : ℕ) (c : Claim) → IsClaimed now (c.heap r).task_id (claim now r c)
unfolding claim
claim-IsClaimed_self now r c =
    let tid = (c.heap r).task_id in
    record {
      entry = record { task = r; processing_started_at = now };
      state = record (get_or tid c.tasks (new_state (some r) "queued")) {
        status = "dispatching";
        processing_started_at = some now;
      };
      at_entry = get-put_self _ _ _;
      at_state = get-put_self _ _ _;
      started = refl;
      status = refl;
      since = refl;
      own = ground arith;
      stamped = ground arith;
    }

claim-IsClaimed :
    (now r : ℕ) (tid : String) (c : Claim) → IsClaimed now tid c → IsClaimed now tid (claim now r c)
claim-IsClaimed now r tid c h = elim (Bool-cases (str_eq (c.heap r).task_id tid)) [
  | inl e ↦
      subst (λ k. IsClaimed now k (claim now r c)) ((eq_iff _ _).0 e) (claim-IsClaimed_self now r c)
  | inr e ↦
      unfold claim in
      record {
        entry = h.entry;
        state = h.state;
        at_entry = rw (get-put_ne _ _ _ _ e) h.at_entry;
        at_state = rw (get-put_ne _ _ _ _ e) h.at_state;
        started = h.started;
        status = h.status;
        since = h.since;
        own = ground (arith, h.own);
        stamped = ground (arith, h.own, h.stamped, eq_refl tid);
      }
]

pop_loop-IsClaimed :
    (now n : ℕ) (tid : String) (queue : List ℕ) (c : Claim)
    → IsClaimed now tid c
    → IsClaimed now tid (pop_loop now n queue c).2
unfolding pop_loop
pop_loop-IsClaimed now zero tid queue c h = h
pop_loop-IsClaimed now (suc n) tid [] c h = h
pop_loop-IsClaimed now (suc n) tid (r ∷ queue) c h =
    pop_loop-IsClaimed now n tid queue (claim now r c) (claim-IsClaimed now r tid c h)

pop_loop-All :
    (now n : ℕ) (queue : List ℕ) (c : Claim)
    → let (popped, rest, c') = pop_loop now n queue c in
      All (λ r. IsClaimed now (c.heap r).task_id c') popped
unfolding pop_loop
pop_loop-All now zero queue c = tt
pop_loop-All now (suc n) [] c = tt
pop_loop-All now (suc n) (r ∷ queue) c = (
  pop_loop-IsClaimed now n _ queue (claim now r c) (claim-IsClaimed_self now r c),
  All-imp (pop_loop now n queue (claim now r c)).0
      (λ q.
        subst (λ k. IsClaimed now k (pop_loop now n queue (claim now r c)).2)
          (task_id-claim now r q c))
      (pop_loop-All now n queue (claim now r c)),
)

-- The device's part of the store that the loop of a pop writes to.
abbrev pub claim_of : String → Store → Claim
claim_of d s = record { heap = s.heap; tasks = s.tasks; processing = processing_of d s }

pop_queue-All :
    (d : String) (limit now : ℕ) (queue : List ℕ) (s : Store)
    → let (s', popped) = pop_queue d limit now queue s in
      All (λ r. IsClaimed now (s.heap r).task_id (claim_of d s')) popped
unfolding pop_queue
pop_queue-All d limit now [] s = tt
pop_queue-All d limit now (r ∷ queue) s =
    let start : Claim = record { heap = s.heap; tasks = s.tasks; processing = processing_of d s } in
    let (popped, rest, c) = pop_loop now limit (r ∷ queue) start in
    subst
      (λ p.
        All
          (λ q.
            IsClaimed now (s.heap q).task_id
              (record { heap = c.heap; tasks = c.tasks; processing = p }))
          popped)
      (sym (get_or-put_self d c.processing [] s.processing))
      (pop_loop-All now limit (r ∷ queue) start)

-- Every task that a pop returns is in the device's processing table with the time of the pop, its state
-- is `dispatching` and has that time too, and the task object in that table carries the state's generation.
pub pop-IsClaimed :
    (d : String) (limit now : ℕ) (s : Store)
    → let (s', popped) = pop_pending_tasks d limit now s in
      All (λ r. IsClaimed now (s.heap r).task_id (claim_of d s')) popped
unfolding pop_pending_tasks
pop-IsClaimed d limit now s = pop_queue-All d limit now (queue_of d s) s
