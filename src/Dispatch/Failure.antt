-- ===== src/Dispatch/Failure.antt =====
-- What a failed send puts back into the queue.
use qwen.Prelude.{
  sym, All, All-imp, All-append, ◌+◌, ℕ, ◌≡◌, refl, ap, subst, ◌∙◌, String, Bool, false, Option,
  some, List, [], ◌∷◌, ◌++◌, inl, inr, arith, eq_refl, beq_refl, Bool-cases, Option-cases,
}
use qwen.Prelude.Dict.{Dict, get, remove}
use qwen.TaskStore.{Store, queue_of}
use qwen.TaskStore.Delivery.{increment_retry_count, abandon_processing_task, processing_of}
use qwen.TaskStore.Delivery.Pop.{queue_of-requeue}
use qwen.Events.{Stamp}
use qwen.Sessions.{Registry, take_outstanding, outstanding, unregister, is_other}
use qwen.TaskStore.{Task}
use qwen.TaskStore.Delivery.Retries.{retries}
use qwen.Dispatch.Charged.{
  Counts, times, within_retries, charge-kept, heap-charge, retries-charge, heap-put_back,
  retries-put_back,
}
use qwen.Dispatch.{
  Channel, store_of, device_of, charge_retries, put_back, requeue_session_outstanding,
  dispatch_task_to_session, dispatch_batch, requeue_rest,
}

queue_of-increment :
    (d tid : String) (s : Store) → queue_of d (increment_retry_count tid s).0 ≡ queue_of d s
unfolding increment_retry_count
queue_of-increment d tid s = elim (Option-cases (get tid s.tasks)) [
  | inl e ↦ rw (increment_retry_count, e) refl
  | inr (state, e) ↦ rw (increment_retry_count, e) refl
]

queue_of-abandon :
    (d e tid : String) (s : Store) → queue_of d (abandon_processing_task e tid s).0 ≡ queue_of d s
unfolding abandon_processing_task
queue_of-abandon d e tid s = elim (Option-cases (get tid (processing_of e s))) [
  | inl h ↦ rw (abandon_processing_task, h) refl
  | inr (entry, h) ↦ rw (abandon_processing_task, h) refl
]

queue_of-charge :
    (d : String) (ts : List ℕ) (s : Store) → queue_of d (charge_retries d ts s).0 ≡ queue_of d s
unfolding charge_retries
queue_of-charge d [] s = refl
queue_of-charge d (t ∷ ts) s =
    let tid = (s.heap t).task_id in
    let (counted, n) = increment_retry_count tid s in
    queue_of-charge d ts _
    ∙ ground (arith, queue_of-increment d tid s, queue_of-abandon d d tid counted)

queue_of-put_back :
    (d : String) (ts : List ℕ) (s : Store) → queue_of d (put_back d (s, ts)).0 ≡ ts ++ queue_of d s
queue_of-put_back d [] s = refl
queue_of-put_back d (t ∷ ts) s = queue_of-requeue d d (t ∷ ts) s ∙ rw (eq_refl d) refl

-- After `requeue_session_outstanding`, the session has its device and nothing in flight.
requeue_lem :
    (r : ℕ) (extra : List ℕ) (c : Channel)
    → let c' = (requeue_session_outstanding r extra c).0 in
      (device_of r c' ≡ device_of r c) × ((c'.registry.heap r).inflight_tasks ≡ [])
unfolding requeue_session_outstanding take_outstanding
requeue_lem r extra c = (ground (arith, beq_refl r), ground (arith, beq_refl r))

-- An unregistration changes the table of sessions only.
unregister_rest :
    (d : String) (websocket : Option ℕ) (g : Registry)
    → (m : Dict ℕ) × (unregister d websocket g ≡ record g { sessions = m })
unfolding unregister
unregister_rest d websocket g = elim (Option-cases (get d g.sessions)) [
  | inl e ↦ (g.sessions, rw (unregister, e) refl)
  | inr (r, e) ↦ elim (Bool-cases (is_other websocket (g.heap r).websocket)) [
    | inl other ↦ (g.sessions, rw (unregister, e, other) refl)
    | inr same ↦ (remove d g.sessions, rw (unregister, e, same) refl)
  ]
]

-- The tail of a batch, put back by a session that has nothing in flight.
rest_store :
    (r : ℕ) (ts : List ℕ) (c : Channel)
    → (c.registry.heap r).inflight_tasks ≡ []
    → store_of (requeue_rest r ts c)
      ≡ (put_back (device_of r c) (charge_retries (device_of r c) ts (store_of c))).0
unfolding charge_retries outstanding requeue_session_outstanding take_outstanding
rest_store r [] c idle = refl
rest_store r (t ∷ ts) c idle =
    ap
      (λ inflight.
        (put_back (device_of r c)
          (charge_retries (device_of r c) (outstanding inflight ++ t ∷ ts) (store_of c))).0)
      idle

-- What a store with the retries `count` becomes when two lists of tasks are charged and put back, one
-- after the other.
module _ (d : String) (first ts : List ℕ) (count : String → ℕ) (s : Store)
    (known : Counts count first s) (known' : Counts count ts s) where
  abbrev charged : Store × List ℕ
  charged = charge_retries d first s

  abbrev between : Store
  between = (put_back d charged).0

  abbrev charged' : Store × List ℕ
  charged' = charge_retries d ts between

  abbrev count_between : String → ℕ
  count_between k = count k + times s.heap k first

  heap-between : between.heap ≡ s.heap
  heap-between = heap-put_back d charged.1 charged.0 ∙ heap-charge d first s

  retries-between :
      (k : String) (n : ℕ)
      → retries k s ≡ some n
      → retries k between ≡ some (n + times s.heap k first)
  retries-between k n h =
      retries-put_back k d _ charged.1 charged.0 (retries-charge k d first n s h)

  between-Counts : Counts count_between ts between
  between-Counts =
      subst
        (λ (heap : ℕ → Task).
          All (λ u. retries (heap u).task_id between ≡ some (count_between (heap u).task_id)) ts)
        (sym heap-between) (All-imp ts (λ u h. retries-between (s.heap u).task_id _ h) known')

  put_back-queue :
      queue_of d (put_back d charged').0
      ≡ within_retries s.heap count_between ts
        ++ (within_retries s.heap count first ++ queue_of d s)
  put_back-queue =
      let first_kept = charge-kept d first count s known in
      let kept =
        charge-kept d ts count_between between between-Counts
        ∙ ap (λ heap. within_retries heap count_between ts) heap-between in
      queue_of-put_back d charged'.1 charged'.0
      ∙ ap (λ q. charged'.1 ++ q)
          (queue_of-charge d ts between
            ∙ queue_of-put_back d charged.1 charged.0
            ∙ ap (λ q. charged.1 ++ q) (queue_of-charge d first s)
            ∙ ap (λ us. us ++ queue_of d s) first_kept)
      ∙ ap (λ us. us ++ (within_retries s.heap count first ++ queue_of d s)) kept

  put_back-retries :
      (k : String) (n : ℕ)
      → retries k s ≡ some n
      → retries k (put_back d charged').0 ≡ some (n + times s.heap k first + times s.heap k ts)
  put_back-retries k n h = retries-put_back k d _ charged'.1 charged'.0 (
      retries-charge k d ts _ between (retries-between k n h)
      ∙ ap (λ (heap : ℕ → Task). some (n + times s.heap k first + times heap k ts)) heap-between)

module _ (sends : ℕ → Bool) (stamp : ℕ → Stamp) where
  failed_store :
      (r t : ℕ) (ts : List ℕ) (c : Channel)
      → sends t ≡ false
      → let d = device_of r c in
        let inflight = outstanding (c.registry.heap r).inflight_tasks in
        let first = charge_retries d (inflight ++ t ∷ []) (store_of c) in
        let (c', sent) = dispatch_batch sends stamp r (t ∷ ts) c in
        (sent ≡ false) × (store_of c' ≡ (put_back d (charge_retries d ts (put_back d first).0)).0)
  unfolding dispatch_batch dispatch_task_to_session requeue_session_outstanding take_outstanding
  failed_store r t ts c fails =
      let (m, e) =
        unregister_rest (device_of r c) (some (c.registry.heap r).websocket) c.registry in
      let c0 : Channel = record c { registry = record c.registry { sessions = m } } in
      let c1 = (requeue_session_outstanding r (t ∷ []) c0).0 in
      let (device, idle) = requeue_lem r (t ∷ []) c0 in
      let rest =
        subst
          (λ (d : String).
            store_of (requeue_rest r ts c1) ≡ (put_back d (charge_retries d ts (store_of c1))).0)
          device (rest_store r ts c1 idle) in
      rw (fails, e) (refl, rest)

  -- Where the send of the first task of a batch fails, the batch ends with false. The session's tasks in
  -- flight and the task that failed are put before the queue, and then the tail of the batch before them. Each of
  -- these tasks, the tail's too, is charged one retry, and one that has then more than three is left out. All
  -- of them are known to the store, where `count` has their retries of before.
  pub failed_batch :
      (r t : ℕ) (ts : List ℕ) (c : Channel) (count : String → ℕ)
      → sends t ≡ false
      → let s = store_of c in
        let first = outstanding (c.registry.heap r).inflight_tasks ++ t ∷ [] in
        Counts count first s
        → Counts count ts s
        → let d = device_of r c in
          let (c', sent) = dispatch_batch sends stamp r (t ∷ ts) c in
          (sent ≡ false)
          × (queue_of d (store_of c')
              ≡ within_retries s.heap (λ k. count k + times s.heap k first) ts
                ++ (within_retries s.heap count first ++ queue_of d s))
          × All
              (λ u.
                let k = (s.heap u).task_id in
                retries k (store_of c') ≡ some (count k + times s.heap k first + times s.heap k ts))
              (first ++ ts)
  failed_batch r t ts c count fails known known' =
      let d = device_of r c in
      let s = store_of c in
      let first = outstanding (c.registry.heap r).inflight_tasks ++ t ∷ [] in
      let charged_with = put_back-retries d first ts count s known known' in
      let (sent, store) = failed_store r t ts c fails in
      (
        sent,
        rw store (put_back-queue d first ts count s known known'),
        rw store (
            All-append _ first ts (All-imp first (λ u h. charged_with (s.heap u).task_id _ h) known)
              (All-imp ts (λ u h. charged_with (s.heap u).task_id _ h) known')),
      )
