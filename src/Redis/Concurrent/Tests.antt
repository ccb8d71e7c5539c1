-- ===== src/Redis/Concurrent/Tests.antt =====
-- A recovery that is written between the pop of a task and the late ack of its first worker.
use qwen.Prelude.{ℕ, ◌≡◌, refl, false, none, some, [], ◌∷◌, ◌++◌, arith, ◌==◌, if◌then◌else◌}
use qwen.Prelude.Dict.{get, put}
use qwen.Redis.{TaskState, new_state}
use qwen.Redis.Table.{Tables, tables}
use qwen.Redis.Cas.{bump_version, cas_round}
use qwen.Redis.Cas.Races.{World, set_read, Run, start, loads, commits}
use qwen.Redis.Processing.{ack_processing, recovered}
use qwen.Redis.Concurrent.{Call, recovers, acks, mutator, mutators, late_ack_refused}

-- The first client recovers the task, every other one acks it.
abbrev calls : ℕ → Call
calls c = if c == 0 then recovers 500 else acks

abbrev dispatched : TaskState
dispatched = new_state none "dispatched"

abbrev one_task : Tables
one_task = record {
  tasks = ("task-1", dispatched) ∷ [];
  pending_lists = [];
  processing_lists = [];
  counter = 1;
}

known : tables.hget "task-1" one_task ≡ some dispatched
unfolding get
known = refl

abbrev idle_world : World tables "task-1" (mutators tables "task-1" calls)
idle_world = record { table = one_task; read = λ c. none }

abbrev both_read : World tables "task-1" (mutators tables "task-1" calls)
both_read = record {
  table = one_task;
  read =
      set_read tables "task-1" (mutators tables "task-1" calls)
        (set_read tables "task-1" (mutators tables "task-1" calls) (λ c. none) 0 (some dispatched))
        1 (some dispatched);
}

-- The recovery is written first, so the second client's write is refused.
abbrev last : World tables "task-1" (mutators tables "task-1" calls)
last = record {
  table = record one_task { tasks = ("task-1", bump_version (recovered 500 dispatched)) ∷ [] };
  read =
      set_read tables "task-1" (mutators tables "task-1" calls)
        (set_read tables "task-1" (mutators tables "task-1" calls) both_read.read 0 none) 1 none;
}

recovery_first :
    Run tables "task-1"
      (mutators tables "task-1" calls)
      idle_world
      ([] ++ (λ (s : TaskState). bump_version (recovered 500 s)) ∷ [])
      last
unfolding cas_round get put mutator
recovery_first = commits 1 dispatched refl (commits 0 dispatched refl (loads 1 (loads 0 start)))

late_ack_refused_example :
    ack_processing tables false "dev" "task-1" (some 0) last.table ≡ (last.table, false)
late_ack_refused_example =
    late_ack_refused tables "task-1" calls idle_world dispatched known (λ c. refl) [] [] 500 0 false
      "dev" recovery_first (omega arith)
