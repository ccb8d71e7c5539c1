-- ===== src/Motion.antt =====
-- The motion event that a device reports, as far as the task store, the ledger and the workflow read
-- it (device_gateway/task_events.py passes the dict on).
use qwen.Prelude.{ℕ, String, Option, some}

-- `error` of the event: a text, or a dict with a code and a message.
pub data EventError : Type 0 where
  text : String → EventError
  coded : Option String → Option String → EventError

-- The keys that the ledger's readers look up; each may be missing.
pub record Report : Type 0 where
  pub phase : Option String
  pub progress : Option ℕ
  pub error : Option EventError
  pub error_code : Option String
  pub error_message : Option String

pub record MotionEvent : Type 0 where
  pub task_id : String
  pub device_id : String
  pub phase : String
  pub progress : Option ℕ
  pub error : Option EventError
  pub error_code : Option String
  pub error_message : Option String

-- The event as a ledger payload.
abbrev pub report_of : MotionEvent → Report
report_of e = record {
  phase = some e.phase;
  progress = e.progress;
  error = e.error;
  error_code = e.error_code;
  error_message = e.error_message;
}
