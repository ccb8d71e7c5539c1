-- ===== src/Quota/Tests.antt =====
-- A key with a quota of two calls a day.
use qwen.Prelude.{◌+◌, ◌≤◌, ◌≡◌, refl, true, false, List, [], ◌∷◌, arith}
use qwen.Prelude.Dict.{get, put}
use qwen.Quota.{ClientKey, Tracker, consume, current_counts, check_rpm, try_consume_quota}
use qwen.Quota.Counting.{Call, allowed_calls, HasQuota, daily_quota}

abbrev key : ClientKey
key = record {
  key_hash = "k";
  enabled = true;
  rate_limit_rpm = 0;
  quota_daily = 2;
  quota_monthly = 30;
}

abbrev fresh : Tracker
fresh = record { rpm_window = 60; rpm_windows = []; rows = [] }

abbrev three_calls : List Call
three_calls =
    record { key = key; now = 1; failed = false }
    ∷ record { key = key; now = 2; failed = false }
    ∷ record { key = key; now = 3; failed = false }
    ∷ []

two_allowed : allowed_calls "k" "2026-07-01" "2026-07" three_calls fresh ≡ 2
unfolding allowed_calls try_consume_quota check_rpm get put current_counts consume
two_allowed = refl

daily_quota_example :
    allowed_calls "k" "2026-07-01" "2026-07" three_calls fresh
      + (current_counts "k" "2026-07-01" "2026-07" fresh).0
    ≤ 2
unfolding HasQuota current_counts get
daily_quota_example =
    daily_quota "k" "2026-07-01" "2026-07" 2 three_calls fresh (omega arith)
      (λ _. refl, (λ _. refl, (λ _. refl, tt))) (omega arith)
