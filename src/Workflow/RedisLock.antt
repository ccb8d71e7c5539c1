-- ===== src/Workflow/RedisLock.antt =====
-- device_workflow/lock.py, `RedisTaskLock`: the lock of a task for several processes. A random nonce of
-- an acquisition is an argument.
pub mod Runs
use qwen.Prelude.{
  ℕ, ◌≡◌, String, Bool, true, false, not, Option, none, some, if◌then◌else◌, str_eq, is_some,
}
use qwen.Prelude.Dict.{Dict, get, put, remove}

-- What the lock relies on of the Redis server: `GET`, `SET` with `NX`, and `DEL`. The key of a task's
-- lock is the task id here. A key whose time to live has run out is deleted.
pub record LockServer : Type 1 where
  pub State : Type 0
  pub lookup : String → State → Option String
  pub set_nx : String → String → State → State × Bool
  pub del : String → State → State
  pub lookup-set_nx :
      (k j v : String) (s : State)
      → lookup j (set_nx k v s).0
        ≡ (if str_eq k j then (if is_some (lookup j s) then lookup j s else some v) else lookup j s)
  pub set_nx-answer : (k v : String) (s : State) → (set_nx k v s).1 ≡ not (is_some (lookup k s))
  pub lookup-del :
      (k j : String) (s : State) → lookup j (del k s) ≡ (if str_eq k j then none else lookup j s)

module _ (r : LockServer) where
  open r use {State, lookup, set_nx, del}

  -- A process works on the server and on its own `_nonces`.
  unfoldable pub acquire : String → String → State × Dict String → State × Dict String × Bool
  acquire tid nonce (s, nonces) =
      let (s', acquired) = set_nx tid nonce s in
      (s', if acquired then put tid nonce nonces else nonces, acquired)

  -- The script of `release`.
  unfoldable pub delete_if_owner : String → String → State → State
  delete_if_owner tid nonce s = elim (lookup tid s) [
    | none ↦ s
    | some held ↦ if str_eq held nonce then del tid s else s
  ]

  unfoldable pub release : String → State × Dict String → State × Dict String
  release tid (s, nonces) = (
    elim (get tid nonces) [ none ↦ s | some nonce ↦ delete_if_owner tid nonce s ],
    remove tid nonces,
  )
