-- ===== src/Redis/Cas/Tests.antt =====
-- The theorems on `_cas_update` at a task that two clients update at once.
use qwen.Prelude.{ℕ, ◌+◌, ◌≡◌, refl, none, some, List, [], ◌∷◌}
use qwen.Prelude.Dict.{get, put}
use qwen.Redis.{TaskState, new_state}
use qwen.Redis.Table.{Tables, tables}
use qwen.Redis.Cas.{bump_version, cas_round}
use qwen.Redis.Cas.Races.{World, set_read, Run, start, loads, commits, replay, Run-replay}

abbrev none_yet : Tables
none_yet = record { tasks = []; pending_lists = []; processing_lists = []; counter = 0 }

abbrev queued : TaskState
queued = new_state none "queued"

abbrev retried : ℕ → TaskState → TaskState
retried c state = record state { retry_count = state.retry_count + 1 }

abbrev one_task : Tables
one_task = record none_yet { tasks = ("task-1", queued) ∷ [] }

abbrev idle_world : World tables "task-1" retried
idle_world = record { table = one_task; read = λ c. none }

get_one : tables.hget "task-1" one_task ≡ some queued
unfolding get
get_one = refl

-- Both clients read, the first one writes, and the second one's write is refused.
abbrev done_by_two : List (TaskState → TaskState)
done_by_two = (λ (s : TaskState). bump_version (retried 0 s)) ∷ []

abbrev both_read : World tables "task-1" retried
both_read = record {
  table = one_task;
  read =
      set_read tables "task-1" retried
        (set_read tables "task-1" retried (λ c. none) 0 (some queued)) 1 (some queued);
}

abbrev last : World tables "task-1" retried
last = record {
  table = record none_yet { tasks = ("task-1", bump_version (retried 0 queued)) ∷ [] };
  read =
      set_read tables "task-1" retried (set_read tables "task-1" retried both_read.read 0 none) 1
        none;
}

two_clients : Run tables "task-1" retried idle_world done_by_two last
unfolding cas_round get put
two_clients = commits 1 queued refl (commits 0 queued refl (loads 1 (loads 0 start)))

Run-replay_example : tables.hget "task-1" last.table ≡ some (bump_version (retried 0 queued))
unfolding replay
Run-replay_example =
    Run-replay tables "task-1" retried (λ c state. refl) queued idle_world get_one (λ c. refl)
      two_clients
