-- ===== src/Quota.antt =====
-- client_keys/quota.py: `QuotaTracker`. The SQLite table is a dict of rows by the token's hash, which is
-- its primary key; `failed` says that SQLite raised an error, after which its transaction has done
-- nothing. The clock, the day and the month are arguments. A limit that is not positive is 0 here.
pub mod Counting
mod Tests
use qwen.Prelude.{
  ℕ, ◌+◌, String, Bool, true, false, ◌&&◌, not, Option, none, some, List, [], ◌∷◌, ◌++◌, ltb, leb,
  if◌then◌else◌, str_eq, length, drop,
}
use qwen.Prelude.Dict.{Dict, get, put, remove, get_or}
use qwen.RateLimit.{purge}

-- What the tracker reads of a `ClientKey`.
pub record ClientKey : Type 0 where
  pub key_hash : String
  pub enabled : Bool
  pub rate_limit_rpm : ℕ
  pub quota_daily : ℕ
  pub quota_monthly : ℕ

pub record Row : Type 0 where
  pub day : String
  pub month : String
  pub daily_count : ℕ
  pub monthly_count : ℕ
  pub last_used_at : ℕ

pub record Tracker : Type 0 where
  pub rpm_window : ℕ
  pub rpm_windows : Dict (List ℕ)
  pub rows : Dict Row

-- `append` to a deque of `maxlen` 10000.
append_bounded : List ℕ → ℕ → List ℕ
append_bounded times now =
    if leb 10000 (length times) then drop 1 times ++ now ∷ [] else times ++ now ∷ []

-- The loop that drops old times is the rate limiter's.
pub rpm_exceeded : String → ℕ → ℕ → Tracker → Tracker × Bool
unfolding append_bounded
rpm_exceeded token limit now t =
    let times = purge t.rpm_window now (get_or token t.rpm_windows []) in
    if leb limit (length times)
    then (record t { rpm_windows = put token times t.rpm_windows }, true)
    else (record t { rpm_windows = put token (append_bounded times now) t.rpm_windows }, false)

daily_in : String → Option Row → ℕ
daily_in day none = 0
daily_in day (some row) = if str_eq row.day day then row.daily_count else 0

monthly_in : String → Option Row → ℕ
monthly_in month none = 0
monthly_in month (some row) = if str_eq row.month month then row.monthly_count else 0

unfoldable pub current_counts : String → String → String → Tracker → ℕ × ℕ
unfolding daily_in monthly_in
current_counts token day month t =
    (daily_in day (get token t.rows), monthly_in month (get token t.rows))

persist_consumption : String → String → String → ℕ → ℕ → ℕ → Tracker → Tracker
persist_consumption token day month daily monthly now t = record t {
  rows =
      put token
        (record {
          day = day;
          month = month;
          daily_count = daily + 1;
          monthly_count = monthly + 1;
          last_used_at = now;
        })
        t.rows;
}

-- `quota > 0 and count >= quota`
abbrev pub is_used_up : ℕ → ℕ → Bool
is_used_up quota count = ltb 0 quota && leb quota count

-- The transaction.
pub consume : ClientKey → String → String → ℕ → Tracker → Tracker × (Bool × String)
unfolding persist_consumption
consume key day month now t =
    let (daily, monthly) = current_counts key.key_hash day month t in
    if is_used_up key.quota_daily daily
    then (t, (false, "daily_limit"))
    else if is_used_up key.quota_monthly monthly
    then (t, (false, "monthly_limit"))
    else (persist_consumption key.key_hash day month daily monthly now t, (true, ""))

pub check_rpm : ClientKey → ℕ → Tracker → Tracker × Bool
check_rpm key now t =
    if ltb 0 key.rate_limit_rpm
    then rpm_exceeded key.key_hash key.rate_limit_rpm now t
    else (t, false)

pub try_consume_quota : ClientKey → String → String → ℕ → Bool → Tracker → Tracker × (Bool × String)
unfolding check_rpm
try_consume_quota key day month now failed t =
    let (t', exceeded) = check_rpm key now t in
    if exceeded
    then (t', (false, "rpm_limit"))
    else if failed
    then (t', (false, "quota_error"))
    else consume key day month now t'

pub check_key_quota : ClientKey → String → String → Bool → Tracker → Bool
check_key_quota key day month failed t =
    if not key.enabled then false else if failed then false else elim (get key.key_hash t.rows) [
      | none ↦ true
      | some row ↦
          if is_used_up key.quota_daily (daily_in day (some row))
          then false
          else if is_used_up key.quota_monthly (monthly_in month (some row))
          then false
          else true
    ]

pub record Usage : Type 0 where
  pub daily_count : ℕ
  pub monthly_count : ℕ
  pub last_used_at : Option ℕ

pub usage_summary : String → String → String → Bool → Tracker → Usage
usage_summary token day month failed t =
    if failed
    then record { daily_count = 0; monthly_count = 0; last_used_at = none }
    else elim (get token t.rows) [
      | none ↦ record { daily_count = 0; monthly_count = 0; last_used_at = none }
      | some row ↦ record {
        daily_count = daily_in day (some row);
        monthly_count = monthly_in month (some row);
        last_used_at = some row.last_used_at;
      }
    ]

pub clear_token : String → Bool → Tracker → Tracker
clear_token token failed t = record t {
  rpm_windows = remove token t.rpm_windows;
  rows = if failed then t.rows else remove token t.rows;
}
