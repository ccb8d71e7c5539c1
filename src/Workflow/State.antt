-- ===== src/Workflow/State.antt =====
-- device_workflow/state.py: the states, their texts, and `VALID_TRANSITIONS`.
pub mod Paths
use qwen.Prelude.{
  String, ◌≡◌, refl, Bool, true, false, Option, none, some, List, [], ◌∷◌, if◌then◌else◌, str_eq,
  arith,
}

pub data TaskState : Type 0 where
  created planned simulated waiting_approval ready_to_dispatch dispatched running : TaskState
  in_progress recovering terminal completed failed cancelled : TaskState

pub TaskState-discrete : Discrete TaskState
TaskState-discrete = hlevel

unfoldable pub value : TaskState → String
value created = "created"
value planned = "planned"
value simulated = "simulated"
value waiting_approval = "waiting_approval"
value ready_to_dispatch = "ready_to_dispatch"
value dispatched = "dispatched"
value running = "running"
value in_progress = "in_progress"
value recovering = "recovering"
value terminal = "terminal"
value completed = "completed"
value failed = "failed"
value cancelled = "cancelled"

abbrev pub all_states : List TaskState
all_states =
    created ∷ planned ∷ simulated ∷ waiting_approval ∷ ready_to_dispatch ∷ dispatched ∷ running
    ∷ in_progress ∷ recovering ∷ terminal ∷ completed ∷ failed ∷ cancelled ∷ []

find_state : String → List TaskState → Option TaskState
find_state text [] = none
find_state text (s ∷ rest) = if str_eq (value s) text then some s else find_state text rest

-- `TaskState(text)`; `none` where Python raises `ValueError`.
unfoldable pub parse_state : String → Option TaskState
unfolding find_state
parse_state text = find_state text all_states

-- The row of `VALID_TRANSITIONS`.
pub allowed : TaskState → List TaskState
allowed created = planned ∷ []
allowed planned = simulated ∷ []
allowed simulated = waiting_approval ∷ ready_to_dispatch ∷ []
allowed waiting_approval = ready_to_dispatch ∷ terminal ∷ []
allowed ready_to_dispatch = dispatched ∷ []
allowed dispatched = running ∷ in_progress ∷ failed ∷ cancelled ∷ []
allowed running = terminal ∷ recovering ∷ []
allowed in_progress = completed ∷ failed ∷ cancelled ∷ recovering ∷ []
allowed recovering = running ∷ terminal ∷ in_progress ∷ []
allowed terminal = []
allowed completed = []
allowed failed = recovering ∷ terminal ∷ []
allowed cancelled = []

contains : TaskState → List TaskState → Bool
contains t [] = false
contains t (s ∷ rest) =
    let others = contains t rest in elim (TaskState-discrete s t) [ yes _ ↦ true | no _ ↦ others ]

-- `target in VALID_TRANSITIONS[current]`
unfoldable pub is_allowed : TaskState → TaskState → Bool
unfolding contains allowed TaskState-discrete
is_allowed current target = contains target (allowed current)

-- `STATE_TO_STORE_STATUS`: the statuses of the task store that agree with a workflow state.
pub store_statuses : TaskState → List String
store_statuses created = "created" ∷ []
store_statuses planned = "created" ∷ "queued" ∷ []
store_statuses simulated = "created" ∷ "queued" ∷ []
store_statuses waiting_approval = "created" ∷ "queued" ∷ "pending" ∷ []
store_statuses ready_to_dispatch = "created" ∷ "queued" ∷ "pending" ∷ []
store_statuses dispatched = "dispatching" ∷ "dispatched" ∷ []
store_statuses running = "running" ∷ []
store_statuses in_progress = "running" ∷ "processing" ∷ "progress" ∷ []
store_statuses recovering = "running" ∷ "processing" ∷ []
store_statuses terminal = "completed" ∷ []
store_statuses completed = "completed" ∷ []
store_statuses failed = "failed" ∷ []
store_statuses cancelled = "cancelled" ∷ []

-- A state is read back from its text.
pub parse-value : (s : TaskState) → parse_state (value s) ≡ some s
unfolding parse_state value
parse-value created = refl
parse-value _ = refl

find_state-value :
    (text : String) (states : List TaskState) (s : TaskState)
    → find_state text states ≡ some s
    → str_eq (value s) text ≡ true
unfolding find_state
find_state-value text [] s h = cc
find_state-value text (t ∷ states) s h = ground (arith, find_state-value text states s)

-- A text is read as a state only if it is that state's text.
pub parse_state-value :
    (text : String) (s : TaskState) → parse_state text ≡ some s → str_eq (value s) text ≡ true
unfolding parse_state
parse_state-value text s h = find_state-value text all_states s h
