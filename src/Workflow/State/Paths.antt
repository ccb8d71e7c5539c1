-- ===== src/Workflow/State/Paths.antt =====
-- What the transition table forbids.
use mathlib.Core.List.{Memᴰ}
use qwen.Prelude.{◌≡◌, sym, Bool, true, false, ◌⊎◌, inl, inr, List, [], ◌∷◌, arith}
use qwen.Workflow.State.{
  TaskState, created, planned, simulated, waiting_approval, ready_to_dispatch, terminal, is_allowed,
}

-- A walk along the table, with the states that it enters.
pub data Walk : TaskState → List TaskState → TaskState → Type 0 where
  stay : {s : TaskState} → Walk s [] s
  move :
      {s u : TaskState} {path : List TaskState} (t : TaskState)
      → is_allowed s t ≡ true
      → Walk t path u
      → Walk s (t ∷ path) u

-- The states before a dispatch, those from which the device never ran the task.
unfoldable pub is_before_dispatch : TaskState → Bool
is_before_dispatch created = true
is_before_dispatch planned = true
is_before_dispatch simulated = true
is_before_dispatch waiting_approval = true
is_before_dispatch terminal = true
is_before_dispatch _ = false

step_before :
    (s t : TaskState)
    → is_before_dispatch s ≡ true
    → is_allowed s t ≡ true
    → (t ≡ ready_to_dispatch) ⊎ (is_before_dispatch t ≡ true)
unfolding is_before_dispatch is_allowed
step_before created t h a = ground arith
step_before planned t h a = ground arith
step_before simulated t h a = ground arith
step_before waiting_approval t h a = ground arith
step_before terminal t h a = ground arith
step_before _ t h a = cc

-- No task is dispatched, run, recovered or failed unless it was made ready to dispatch before: every
-- walk from a state before the dispatch to one after it enters `ready_to_dispatch`.
pub walk_needs_ready :
    {s u : TaskState} {path : List TaskState}
    → Walk s path u
    → is_before_dispatch s ≡ true
    → is_before_dispatch u ≡ false
    → Memᴰ ready_to_dispatch path
walk_needs_ready stay h e = cc
walk_needs_ready (move t a w) h e = elim (step_before _ t h a) [
  | inl ready ↦ Memᴰ.head (sym ready)
  | inr before ↦ Memᴰ.tail (walk_needs_ready w before e)
]
