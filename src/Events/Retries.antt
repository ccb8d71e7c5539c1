-- ===== src/Events/Retries.antt =====
-- How often a failing task is retried.
use qwen.Prelude.{
  ℕ, ◌+◌, ◌≤◌, ◌<◌, ◌≡◌, refl, ap, subst, ◌∙◌, String, Bool, true, false, ◌&&◌, Option, none, some,
  List, [], ◌∷◌, inl, inr, arith, if◌then◌else◌, str_eq, eq_iff, Bool-cases, Option-cases,
}
use qwen.Prelude.Dict.{Dict, get, put, has, get-put}
use qwen.Motion.{MotionEvent}
use qwen.TaskStore.{Store, Task, TaskState, task_snapshot, update}
use qwen.TaskStore.Delivery.{reset_task_for_retry, enqueue_pending_task, queued_state}
use qwen.Recovery.{ActionName, retry, home, stop, is_retry, recovery_action, should_retry}
use qwen.Events.{
  enqueue_copy, recover_code, recovery_code, execute_recovery, RecoveryResult, attempt_of, task_of,
}

-- The retries that the table has counted of a task.
abbrev pub retry_in : String → Dict TaskState → ℕ
retry_in tid tasks = elim (get tid tasks) [ none ↦ 0 | some state ↦ state.retry_count ]

max_retries_le :
    (normal : String → String) (code : String) → (recovery_action normal code).max_retries ≤ 3
unfolding recovery_action get
max_retries_le normal code = ground arith

should_retry-lt :
    (normal : String → String) (code : String) (attempt : ℕ)
    → should_retry normal code attempt ≡ true
    → attempt < 3
unfolding should_retry
should_retry-lt normal code attempt h = ground (arith, h, max_retries_le normal code)

-- A write that keeps the retries of the task it writes keeps those of all.
retry_in-put :
    (tid k : String) (state : TaskState) (tasks : Dict TaskState)
    → has tid tasks ≡ true
    → (retry_in tid (put k state tasks)
        ≡ (if str_eq k tid then state.retry_count else retry_in tid tasks))
      × (has tid (put k state tasks) ≡ true)
retry_in-put tid k state tasks h =
    (ground (arith, get-put k tid state tasks), ground (arith, h, get-put k tid state tasks))

queued-retry :
    (r : ℕ) (k : String) (tasks : Dict TaskState)
    → (queued_state r k tasks).retry_count ≡ retry_in k tasks
queued-retry r k tasks = elim (Option-cases (get k tasks)) [
  | inl e ↦ ground (arith, e)
  | inr (state, e) ↦ ground (arith, e)
]

retry_in-enqueue :
    (tid d : String) (r now : ℕ) (task : Option Task) (s : Store)
    → has tid s.tasks ≡ true
    → (retry_in tid (enqueue_copy d r now task s).tasks ≡ retry_in tid s.tasks)
      × (has tid (enqueue_copy d r now task s).tasks ≡ true)
unfolding enqueue_copy enqueue_pending_task
retry_in-enqueue tid d r now none s h = (refl, h)
retry_in-enqueue tid d r now (some task) s h =
    let k = (update s.heap r task r).task_id in
    let (count, known) = retry_in-put tid k (queued_state r k s.tasks) s.tasks h in
    let same = queued-retry r k s.tasks in
    elim (Bool-cases (str_eq k tid)) [
      | inl e ↦ (count ∙ rw e (same ∙ ap (λ x. retry_in x s.tasks) ((eq_iff k tid).0 e)), known)
      | inr e ↦ (count ∙ rw e refl, known)
    ]

abbrev reset_state : TaskState → TaskState
reset_state state = record state { status = "queued"; retry_count = state.retry_count + 1 }

tasks-reset :
    (k : String) (s : Store) (o : Option TaskState)
    → get k s.tasks ≡ o
    → (reset_task_for_retry k s).tasks
      ≡ elim o [ none ↦ s.tasks | some state ↦ put k (reset_state state) s.tasks ]
unfolding reset_task_for_retry
tasks-reset k s o e =
    ap {B = Dict TaskState}
      (λ x. elim x [ none ↦ s.tasks | some state ↦ put k (reset_state state) s.tasks ]) e

retry_in-reset :
    (tid k : String) (s : Store)
    → has tid s.tasks ≡ true
    → (retry_in tid (reset_task_for_retry k s).tasks
        ≡ retry_in tid s.tasks + (if str_eq k tid then 1 else 0))
      × (has tid (reset_task_for_retry k s).tasks ≡ true)
retry_in-reset tid k s h = elim (Option-cases (get k s.tasks)) [
  | inl e ↦ rw (tasks-reset k s none e) (ground (arith, e, h, eq_iff k tid), h)
  | inr (state, e) ↦
      let (count, known) = retry_in-put tid k (reset_state state) s.tasks h in
      rw (tasks-reset k s (some state) e) (ground (arith, count, e, eq_iff k tid), known)
]

-- Whether a recovery queued the task again.
abbrev pub was_retried : Option RecoveryResult → Bool
was_retried none = false
was_retried (some result) = is_retry result.action

attempt-known : (tid : String) (s : Store) → attempt_of (task_snapshot tid s) ≡ retry_in tid s.tasks
unfolding task_snapshot
attempt-known tid s = elim (Option-cases (get tid s.tasks)) [
  | inl e ↦ ground (arith, e)
  | inr (state, e) ↦ ground (arith, e)
]

abbrev added : String → String → Option RecoveryResult → ℕ
added tid k result = if str_eq k tid && was_retried result then 1 else 0

fallback_lem : (action : ActionName) → is_retry (if is_retry action then stop else action) ≡ false
fallback_lem retry = refl
fallback_lem home = refl
fallback_lem stop = refl

recover_code-counts :
    (normal : String → String) (code tid k d : String) (r now : ℕ) (s : Store)
    → has tid s.tasks ≡ true
    → let (s', result) = recover_code normal code k d r now s in
      (retry_in tid s'.tasks ≡ retry_in tid s.tasks + added tid k (some result))
      × (has tid s'.tasks ≡ true)
      × (retry_in tid s.tasks ≤ 3 → retry_in tid s'.tasks ≤ 3)
unfolding recover_code
recover_code-counts normal code tid k d r now s known =
    let reset = retry_in-reset tid k s known in
    let queued =
      retry_in-enqueue tid d r now (task_of (task_snapshot k s)) (reset_task_for_retry k s)
        reset.1 in
    let attempt = attempt_of (task_snapshot k s) in
    let action = (recovery_action normal code).action in
    elim (Bool-cases (is_retry action && should_retry normal code attempt)) [
      | inl e ↦ rw e (
        ground (arith, reset.0, queued.0),
        queued.1,
        λ h.
            let lt =
              subst (λ n. n < 3) (attempt-known k s)
                (should_retry-lt normal code attempt (ground (arith, e))) in
            elim (Bool-cases (str_eq k tid)) [
              | inl p ↦ ground (
                arith,
                p,
                reset.0,
                queued.0,
                subst (λ x. retry_in x s.tasks < 3) ((eq_iff k tid).0 p) lt,
              )
              | inr p ↦ ground (arith, p, reset.0, queued.0, h)
            ],
      )
      | inr e ↦ rw (e, fallback_lem action) (ground (arith, eq_iff k tid), known, λ h. h)
    ]

-- A failure reported to `execute_recovery`: the task, its device, the event, the copy's place and time.
pub record Failure : Type 0 where
  pub task_id : String
  pub device_id : String
  pub event : MotionEvent
  pub copy : ℕ
  pub now : ℕ

-- How often the task is queued again when the failures are reported one after the other.
unfoldable pub retries : (String → String) → String → List Failure → Store → ℕ
retries normal tid [] s = 0
retries normal tid (f ∷ fs) s =
    let (s', result) = execute_recovery normal f.task_id f.device_id f.event f.copy f.now s in
    added tid f.task_id result + retries normal tid fs s'

execute_recovery-counts :
    (normal : String → String) (tid : String) (f : Failure) (s : Store)
    → has tid s.tasks ≡ true
    → let (s', result) = execute_recovery normal f.task_id f.device_id f.event f.copy f.now s in
      (retry_in tid s'.tasks ≡ retry_in tid s.tasks + added tid f.task_id result)
      × (has tid s'.tasks ≡ true)
      × (retry_in tid s.tasks ≤ 3 → retry_in tid s'.tasks ≤ 3)
unfolding execute_recovery
execute_recovery-counts normal tid f s known = elim (Option-cases (recovery_code f.event)) [
  | inl e ↦ rw (e, execute_recovery) (ground (arith, eq_iff f.task_id tid), known, λ h. h)
  | inr (code, e) ↦
      let (count, there, le) =
        recover_code-counts normal code tid f.task_id f.device_id f.copy f.now s known in
      rw (e, execute_recovery) (count, there, le)
]

-- Whatever failures are reported in whatever order, of whatever tasks, a task that the store knows, and
-- of which it has counted at most three retries, is queued again by the recovery at most three times,
-- those counted before included.
pub retries_bounded :
    (normal : String → String) (tid : String) (fs : List Failure) (s : Store)
    → has tid s.tasks ≡ true
    → retry_in tid s.tasks ≤ 3
    → retries normal tid fs s + retry_in tid s.tasks ≤ 3
unfolding retries
retries_bounded normal tid [] s known h = omega arith
retries_bounded normal tid (f ∷ fs) s known h =
    let (count, there, le) = execute_recovery-counts normal tid f s known in
    let s' = (execute_recovery normal f.task_id f.device_id f.event f.copy f.now s).0 in
    let rest = retries_bounded normal tid fs s' there (le h) in omega (arith, count, rest)
