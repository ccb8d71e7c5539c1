-- ===== src/Workflow/Lock.antt =====
-- device_workflow/lock.py: `ThreadTaskLock`, one non-blocking lock for each task id. A lock that was
-- made and is free, and one that was never made, are told apart by nothing but the table.
use qwen.Prelude.{String, Bool, true, false, none, some, not}
use qwen.Prelude.Dict.{Dict, get, put, get_or}

abbrev pub Locks : Type 0
Locks = Dict Bool

abbrev pub is_held : String → Locks → Bool
is_held tid locks = get_or tid locks false

unfoldable pub acquire : String → Locks → Locks × Bool
acquire tid locks = (put tid true locks, not (is_held tid locks))

-- A release of a lock that is not held is logged and changes nothing.
unfoldable pub release : String → Locks → Locks
release tid locks = elim (get tid locks) [ none ↦ locks | some held ↦ put tid false locks ]
