-- ===== src/Dispatch/Drain.antt =====
-- The push of a queue ends, and where every send succeeds it sends the whole queue in order.
use qwen.Prelude.{
  ℕ, zero, suc, ◌<◌, ◌≡◌, refl, sym, ap, subst, ◌∙◌, String, Bool, true, false, false≢true, some,
  List, [], ◌∷◌, ◌++◌, map, inl, inr, arith, if◌then◌else◌, eq_refl, beq_refl, length,
  length-append, ◌≤◌, take, drop, take-append-drop, List-cases, Bool-cases,
}
use mathlib.Core.List.{append_assoc, map-append, append-nil}
use qwen.TaskStore.{Store, queue_of}
use qwen.TaskStore.Delivery
use qwen.TaskStore.Delivery.{pop_pending_tasks}
use qwen.TaskStore.Delivery.Pop.{pop_fifo}
use qwen.Events.{Stamp}
use qwen.Sessions
use qwen.Sessions.{Registry}
use qwen.Dispatch.{
  Channel, store_of, set_store, device_of, mark_task_dispatched, dispatch_task_to_session,
  dispatch_batch, drain_loop, drain_pending_tasks,
}

length-drop-le : (n : ℕ) (q : List ℕ) → length (drop n q) ≤ length q
length-drop-le n q =
    omega (arith, ap length (take-append-drop n q), length-append (take n q) (drop n q))

take_some-drop :
    (q : List ℕ) (t : ℕ) (ts : List ℕ) → take 16 q ≡ t ∷ ts → length (drop 16 q) < length q
take_some-drop [] t ts h = cc
take_some-drop (x ∷ q) t ts h = omega (arith, length-drop-le 15 q)

take_none : (q : List ℕ) → take 16 q ≡ [] → q ≡ []
take_none [] h = refl
take_none (x ∷ q) h = cc

abbrev frames_of : ℕ → List ℕ → List (ℕ × ℕ)
frames_of r = map (λ t. (r, t))

module _ (sends : ℕ → Bool) (stamp : ℕ → Stamp) (r : ℕ) where
  -- What a batch that was sent as a whole changes.
  record IsSent (c c' : Channel) (ts : List ℕ) : Type 0 where
    device : device_of r c' ≡ device_of r c
    queue : (d : String) → queue_of d (store_of c') ≡ queue_of d (store_of c)
    frames : c'.frames ≡ c.frames ++ frames_of r ts

  IsSent-one :
      (t : ℕ) (c : Channel)
      → sends t ≡ true
      → IsSent c (dispatch_task_to_session sends stamp r t c).0 (t ∷ [])
  unfolding dispatch_task_to_session mark_task_dispatched Delivery.mark_task_dispatched
      Sessions.mark_dispatched
  IsSent-one t c h =
      rw h (record { device = ground (arith, beq_refl r); queue = λ d. refl; frames = refl })

  IsSent-trans :
      (a b c : Channel) (ts us : List ℕ) → IsSent a b ts → IsSent b c us → IsSent a c (ts ++ us)
  IsSent-trans a b c ts us h k = record {
    device = k.device ∙ h.device;
    queue = λ d. k.queue d ∙ h.queue d;
    frames =
        k.frames
        ∙ ap (λ fs. fs ++ frames_of r us) h.frames
        ∙ append_assoc a.frames (frames_of r ts) (frames_of r us)
        ∙ ap (λ fs. a.frames ++ fs) (sym (map-append (λ t. (r, t)) ts us));
  }

  dispatched-answer :
      (t : ℕ) (c : Channel) → (dispatch_task_to_session sends stamp r t c).1 ≡ sends t
  unfolding dispatch_task_to_session
  dispatched-answer t c = elim (Bool-cases (sends t)) [ inl e ↦ rw e refl | inr e ↦ rw e refl ]

  IsSent-batch :
      (ts : List ℕ) (c : Channel)
      → (dispatch_batch sends stamp r ts c).1 ≡ true
      → IsSent c (dispatch_batch sends stamp r ts c).0 ts
  unfolding dispatch_batch
  IsSent-batch [] c h = record {
    device = refl;
    queue = λ d. refl;
    frames = sym (append-nil c.frames);
  }
  IsSent-batch (t ∷ ts) c h =
      let c' = (dispatch_task_to_session sends stamp r t c).0 in
      elim (Bool-cases (sends t)) [
        | inl e ↦
            let rest : (dispatch_batch sends stamp r ts c').1 ≡ true =
              ground (arith, dispatched-answer t c, e) in
            rw (dispatched-answer t c, e)
              (IsSent-trans c c' _ (t ∷ []) ts (IsSent-one t c e) (IsSent-batch ts c' rest))
        | inr e ↦ absurd (ground (arith, dispatched-answer t c, e))
      ]

  batch_succeeds :
      (ts : List ℕ) (c : Channel)
      → ((t : ℕ) → sends t ≡ true)
      → (dispatch_batch sends stamp r ts c).1 ≡ true
  unfolding dispatch_batch dispatch_task_to_session
  batch_succeeds [] c all = refl
  batch_succeeds (t ∷ ts) c all = rw (all t) (batch_succeeds ts _ all)

  -- A push that has ended: where it says that all was sent, the queue is empty, and its tasks are the
  -- frames that were added.
  record IsDrained (c : Channel) (o : Channel × Bool) : Type 0 where
    empty : o.1 ≡ true → queue_of (device_of r c) (store_of o.0) ≡ []
    frames :
        o.1 ≡ true → o.0.frames ≡ c.frames ++ frames_of r (queue_of (device_of r c) (store_of c))
    all : ((t : ℕ) → sends t ≡ true) → o.1 ≡ true

  IsDrained-before :
      (c : Channel) (s : Store) (t : ℕ) (ts : List ℕ) (o : Channel × Bool)
      → let q = queue_of (device_of r c) (store_of c) in
        let c' = (dispatch_batch sends stamp r (t ∷ ts) (set_store s c)).0 in
        (take 16 q ≡ t ∷ ts)
        → IsSent (set_store s c) c' (t ∷ ts)
        → (queue_of (device_of r c') (store_of c') ≡ drop 16 q)
        → IsDrained c' o
        → IsDrained c o
  IsDrained-before c s t ts o taken sent rest h =
      let q = queue_of (device_of r c) (store_of c) in
      let whole : frames_of r (t ∷ ts) ++ frames_of r (drop 16 q) ≡ frames_of r q =
        sym (map-append (λ u. (r, u)) (t ∷ ts) (drop 16 q))
        ∙ ap (frames_of r) (ap (λ us. us ++ drop 16 q) (sym taken) ∙ take-append-drop 16 q) in
      record {
        empty = λ p. subst (λ d. queue_of d (store_of o.0) ≡ []) sent.device (h.empty p);
        frames = λ p.
            h.frames p
            ∙ rw (rest, sent.frames)
                (append_assoc c.frames (frames_of r (t ∷ ts)) (frames_of r (drop 16 q))
                  ∙ ap (λ fs. c.frames ++ fs) whole);
        all = h.all;
      }

  drain_more :
      (fuel now : ℕ) (c : Channel) (t : ℕ) (ts : List ℕ)
      → (pop_pending_tasks (device_of r c) 16 now (store_of c)).1 ≡ t ∷ ts
      → let s = (pop_pending_tasks (device_of r c) 16 now (store_of c)).0 in
        let batch = dispatch_batch sends stamp r (t ∷ ts) (set_store s c) in
        drain_loop sends stamp (suc fuel) r now c
        ≡ (if batch.1 then drain_loop sends stamp fuel r now batch.0 else some (batch.0, false))
  unfolding drain_loop
  drain_more fuel now c t ts e = rw (drain_loop, e) refl

  drain_ends :
      (fuel now : ℕ) (c : Channel)
      → length (queue_of (device_of r c) (store_of c)) < fuel
      → (o : Channel × Bool) × (drain_loop sends stamp fuel r now c ≡ some o) × IsDrained c o
  unfolding drain_loop
  drain_ends zero now c h = absurd (omega arith)
  drain_ends (suc fuel) now c h =
      let d = device_of r c in
      let q = queue_of d (store_of c) in
      let (s, tasks) = pop_pending_tasks d 16 now (store_of c) in
      let (taken, left) = pop_fifo d d 16 now (store_of c) in
      elim (List-cases tasks) [
        | inl e ↦
            let none_left : q ≡ [] = take_none q (sym taken ∙ e) in
            (
              (set_store s c, true),
              rw (drain_loop, e) refl,
              record {
                empty = λ h. left ∙ rw (eq_refl d, none_left) refl;
                frames = λ h. rw none_left (sym (append-nil c.frames));
                all = λ h. refl;
              },
            )
        | inr (t, ts, e) ↦
            let batch = dispatch_batch sends stamp r (t ∷ ts) (set_store s c) in
            elim (Bool-cases batch.1) [
              | inl whole ↦
                  let sent = IsSent-batch (t ∷ ts) (set_store s c) whole in
                  let rest : queue_of (device_of r batch.0) (store_of batch.0) ≡ drop 16 q =
                    rw sent.device (sent.queue d ∙ left ∙ rw (eq_refl d) refl) in
                  let shorter : length (queue_of (device_of r batch.0) (store_of batch.0)) < fuel =
                    rw rest (omega (arith, take_some-drop q t ts (sym taken ∙ e))) in
                  let (o, ends, drained) = drain_ends fuel now batch.0 shorter in
                  (
                    o,
                    drain_more fuel now c t ts e ∙ rw whole ends,
                    IsDrained-before c s t ts o (sym taken ∙ e) sent rest drained,
                  )
              | inr part ↦ (
                (batch.0, false),
                drain_more fuel now c t ts e ∙ rw part refl,
                record {
                  empty = λ h. absurd (false≢true h);
                  frames = λ h. absurd (false≢true h);
                  all = λ h.
                      absurd (false≢true (sym part ∙ batch_succeeds (t ∷ ts) (set_store s c) h));
                },
              )
            ]
      ]

  -- The push of a queue ends, whatever sends fail: one round for each task of the queue and one more are
  -- enough.
  pub drain_total :
      (now : ℕ) (c : Channel)
      → (o : Channel × Bool) × (drain_pending_tasks sends stamp r now c ≡ some o)
  unfolding drain_pending_tasks
  drain_total now c = let (o, ends, drained) = drain_ends _ now c (omega arith) in (o, ends)

  -- Where every send succeeds, the push of a session's queue ends with true, with an empty queue, and has
  -- sent the tasks of the queue in their order, each once.
  pub drain_sends_all :
      (now : ℕ) (c : Channel)
      → ((t : ℕ) → sends t ≡ true)
      → (c' : Channel) × (drain_pending_tasks sends stamp r now c ≡ some (c', true))
        × (queue_of (device_of r c) (store_of c') ≡ [])
        × (c'.frames ≡ c.frames ++ map (λ t. (r, t)) (queue_of (device_of r c) (store_of c)))
  unfolding drain_pending_tasks
  drain_sends_all now c all =
      let (o, ends, drained) = drain_ends _ now c (omega arith) in
      (
        o.0,
        ends ∙ ap (λ b. some (o.0, b)) (drained.all all),
        drained.empty (drained.all all),
        drained.frames (drained.all all),
      )
