-- ===== src/Redis/Cas.antt =====
-- device_gateway/redis_cas.py, and the helpers of redis_store_helpers.py that read and write a task's
-- state. A Lua script runs inside the server as one atomic command.
pub mod Missing
pub mod Races
pub mod Changes
mod Tests
use qwen.Prelude.{
  ℕ, zero, suc, ◌+◌, String, Bool, true, false, Option, none, some, List, [], ◌∷◌, ◌++◌, ◌==◌,
  if◌then◌else◌, str_eq,
}
use qwen.Motion.{MotionEvent}
use qwen.Redis.{TaskState, Server}

-- `get_version` of a state; one without the field has version 0.
abbrev pub version_of : Option TaskState → ℕ
version_of none = 0
version_of (some state) = state.version

abbrev pub bump_version : TaskState → TaskState
bump_version state = record state { version = state.version + 1 }

abbrev pub with_status : String → TaskState → TaskState
with_status status state = if str_eq status "" then state else record state { status = status }

module _ (r : Server) where
  open r use {State, hget, hset}

  -- `_CAS_LUA`; an expected version of -1 is `none`.
  unfoldable pub cas_lua : String → Option ℕ → TaskState → State → State × ℕ
  cas_lua tid expected new s = elim (hget tid s) [
    | none ↦ elim expected [ none ↦ (hset tid new s, 1) | some v ↦ (s, 2) ]
    | some current ↦ elim expected [
      | none ↦ (s, 0)
      | some v ↦ if current.version == v then (hset tid new s, 1) else (s, 0)
    ]
  ]

  -- `cas_write_state` with Lua; every caller has set the new state's version.
  unfoldable pub cas_write_state : String → TaskState → Option ℕ → State → State × Bool
  unfolding cas_lua
  cas_write_state tid new expected s =
      let (s', code) = cas_lua tid expected new s in (s', code == 1)

  -- `append_event_atomic`: `_APPEND_EVENT_LUA`
  unfoldable pub append_event_atomic :
      String → MotionEvent → String → State → State × Option TaskState
  append_event_atomic tid event status s = elim (hget tid s) [
    | none ↦ (s, none)
    | some state ↦
        let new =
          bump_version
            (record (with_status status state) { events = state.events ++ event ∷ [] }) in
        (hset tid new s, some new)
  ]

  abbrev or_default : Option TaskState → Option TaskState → Option TaskState
  or_default none default = default
  or_default (some state) default = some state

  -- One round of `_cas_update`: the state that is written, and whether it was.
  unfoldable pub cas_round : String → (TaskState → TaskState) → TaskState → State → State × Bool
  unfolding cas_write_state
  cas_round tid mutator state s =
      cas_write_state tid (bump_version (mutator state)) (some state.version) s

  cas_loop :
      ℕ → String → (TaskState → TaskState) → Option TaskState → State → State × Option TaskState
  cas_loop zero tid mutator default s = (s, none)
  cas_loop (suc rounds) tid mutator default s = elim (or_default (hget tid s) default) [
    | none ↦ (s, none)
    | some state ↦
        let (s', written) = cas_round tid mutator state s in
        let rest = cas_loop rounds tid mutator default s' in
        if written then (s', some (bump_version (mutator state))) else rest
  ]

  -- `_cas_update`, when no other client writes in between.
  unfoldable pub cas_update :
      String → (TaskState → TaskState) → Option TaskState → State → State × Option TaskState
  unfolding cas_loop
  cas_update = cas_loop 3
