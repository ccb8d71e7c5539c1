-- ===== src/Workflow/RedisLock/Runs/Tests.antt =====
-- Two processes and the lock of one task, on a server that keeps a dict.
use qwen.Prelude.{
  ℕ, ◌≡◌, refl, String, not, none, some, [], arith, if◌then◌else◌, str_eq, is_some, eq_iff,
}
use qwen.Prelude.Dict.{Dict, get, put, remove, get-put, get-remove, has}
use qwen.Workflow.RedisLock.{LockServer, acquire}
use qwen.Workflow.RedisLock.Runs.{World, acquired, start, acquires, one_holder}

abbrev add_new : String → String → Dict String → Dict String
add_new k v s = if has k s then s else put k v s

get-add_new :
    (k j v : String) (s : Dict String)
    → get j (add_new k v s)
      ≡ (if str_eq k j then (if is_some (get j s) then get j s else some v) else get j s)
get-add_new k j v s = ground (arith, get-put k j v s, eq_iff k j)

abbrev server : LockServer
server = record {
  State = Dict String;
  lookup = λ k s. get k s;
  set_nx = λ k v s. (add_new k v s, not (has k s));
  del = λ k s. remove k s;
  lookup-set_nx = get-add_new;
  set_nx-answer = λ k v s. refl;
  lookup-del = λ k j s. get-remove k j s;
}

abbrev idle_world : World server
idle_world = record { table = []; nonces = λ p. []; owner = λ n. none }

idle : (p : ℕ) (tid : String) → get tid (idle_world.nonces p) ≡ none
unfolding get
idle p tid = refl

abbrev held_by_one : World server
held_by_one = acquired server 1 "task-1" "abc" idle_world

held : get "task-1" (held_by_one.nonces 1) ≡ some "abc"
unfolding acquire get put
held = refl

one_holder_example : ◌≡◌ {A = ℕ} 1 1
one_holder_example =
    one_holder server idle_world idle 1 1 "task-1" "abc" "abc"
      (acquires 1 "task-1" "abc" refl start) held held

locked : server.lookup "task-1" held_by_one.table ≡ some "abc"
unfolding acquire get put
locked = refl
