-- ===== src/Redis/Cas/Missing.antt =====
-- `_cas_update` of one client, with no other client in between.
use qwen.Prelude.{ℕ, zero, suc, ◌≡◌, refl, String, true, false, Option, none, some, beq_refl}
use qwen.Redis.{TaskState, Server}
use qwen.Redis.Cas.{bump_version, cas_lua, cas_write_state, cas_round, cas_loop, cas_update}

module _ (r : Server) where
  open r use {State, hget, hset, hget-hset}

  cas_round-known :
      (tid : String) (f : TaskState → TaskState) (state : TaskState) (s : State)
      → hget tid s ≡ some state
      → cas_round r tid f state s ≡ (hset tid (bump_version (f state)) s, true)
  unfolding cas_round cas_write_state cas_lua
  cas_round-known tid f state s h = rw (h, cas_round, cas_write_state, cas_lua, beq_refl) refl

  cas_round-missing :
      (tid : String) (f : TaskState → TaskState) (state : TaskState) (s : State)
      → hget tid s ≡ none
      → cas_round r tid f state s ≡ (s, false)
  unfolding cas_round cas_write_state cas_lua
  cas_round-missing tid f state s h = rw (h, cas_round, cas_write_state, cas_lua) refl

  -- A state that is there is changed and its version raised.
  pub cas_update-known :
      (tid : String) (f : TaskState → TaskState) (default : Option TaskState) (state : TaskState)
      (s : State)
      → hget tid s ≡ some state
      → cas_update r tid f default s
        ≡ (hset tid (bump_version (f state)) s, some (bump_version (f state)))
  unfolding cas_update cas_loop
  cas_update-known tid f default state s h = rw (cas_loop, h, cas_round-known tid f state s h) refl

  cas_loop-missing :
      (rounds : ℕ) (tid : String) (f : TaskState → TaskState) (default : Option TaskState)
      (s : State)
      → hget tid s ≡ none
      → cas_loop r rounds tid f default s ≡ (s, none)
  unfolding cas_loop
  cas_loop-missing zero tid f default s h = refl
  cas_loop-missing (suc rounds) tid f none s h = rw (cas_loop, h) refl
  cas_loop-missing (suc rounds) tid f (some state) s h =
      rw (cas_loop, h, cas_round-missing tid f state s h)
        (cas_loop-missing rounds tid f (some state) s h)

  -- A state that is not there is not made, whatever the default is.
  pub cas_update-missing :
      (tid : String) (f : TaskState → TaskState) (default : Option TaskState) (s : State)
      → hget tid s ≡ none
      → cas_update r tid f default s ≡ (s, none)
  unfolding cas_update
  cas_update-missing tid f default s h = cas_loop-missing 3 tid f default s h
