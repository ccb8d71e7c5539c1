-- ===== src/Recovery.antt =====
-- device_intelligence/recovery.py: what to do about a motion error. The Chinese explanations are left
-- out: they are shown to the user and never read. `normal` is Python's `strip().upper()`.
use qwen.Prelude.{ℕ, String, Bool, true, false, none, some, [], ◌∷◌, ltb}
use qwen.Prelude.Dict.{Dict, get}

pub data ActionName : Type 0 where
  retry home stop : ActionName

pub record RecoveryAction : Type 0 where
  pub action : ActionName
  pub max_retries : ℕ
  pub cooldown_ms : ℕ

-- `_ACTIONS`
abbrev pub actions : Dict RecoveryAction
actions =
    ("E_MISSING_PATH", record { action = retry; max_retries = 3; cooldown_ms = 2000 })
    ∷ ("E_LIMIT", record { action = retry; max_retries = 1; cooldown_ms = 500 })
    ∷ ("E_NOT_HOMED", record { action = home; max_retries = 0; cooldown_ms = 0 })
    ∷ ("E_UART_TIMEOUT", record { action = retry; max_retries = 2; cooldown_ms = 1000 })
    ∷ ("E_ESTOP", record { action = stop; max_retries = 0; cooldown_ms = 0 })
    ∷ []

abbrev pub unknown_action : RecoveryAction
unknown_action = record { action = stop; max_retries = 0; cooldown_ms = 0 }

unfoldable pub recovery_action : (String → String) → String → RecoveryAction
recovery_action normal code = elim (get (normal code) actions) [
  | none ↦ unknown_action
  | some a ↦ a
]

abbrev pub is_retry : ActionName → Bool
is_retry retry = true
is_retry _ = false

-- `0 <= attempt` holds of every natural number.
unfoldable pub should_retry : (String → String) → String → ℕ → Bool
unfolding recovery_action
should_retry normal code attempt =
    let a = recovery_action normal code in
    elim a.action [ retry ↦ ltb attempt a.max_retries | _ ↦ false ]
