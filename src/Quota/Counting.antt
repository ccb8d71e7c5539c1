-- ===== src/Quota/Counting.antt =====
-- What the tracker counts, and what it lets through.
use qwen.Prelude.{
  ℕ, ◌+◌, ◌≤◌, ◌<◌, ◌≡◌, refl, sym, ap, ◌∙◌, subst, String, Bool, true, false, ◌&&◌, not, some,
  List, [], ◌∷◌, inl, inr, arith, false≢true, if◌then◌else◌, str_eq, eq_iff, eq_refl, Bool-cases,
  Option-cases, All,
}
use qwen.Prelude.Dict.{get, get-put}
use qwen.Quota.{
  ClientKey, Row, Tracker, rpm_exceeded, daily_in, monthly_in, current_counts, persist_consumption,
  is_used_up, consume, check_rpm, try_consume_quota, check_key_quota,
}

-- The rate is kept beside the table.
rows-check_rpm : (key : ClientKey) (now : ℕ) (t : Tracker) → (check_rpm key now t).0.rows ≡ t.rows
unfolding check_rpm rpm_exceeded
rows-check_rpm key now t = ground arith

-- The counts of the day and the month of the write are one more for its token, and as before for others.
persist-counts :
    (hash token day month : String) (daily monthly now : ℕ) (t : Tracker)
    → current_counts token day month (persist_consumption hash day month daily monthly now t)
      ≡ (if str_eq hash token then (daily + 1, monthly + 1) else current_counts token day month t)
unfolding persist_consumption current_counts daily_in monthly_in
persist-counts hash token day month daily monthly now t =
    let row : Row = record {
      day = day;
      month = month;
      daily_count = daily + 1;
      monthly_count = monthly + 1;
      last_used_at = now;
    } in
    elim (Bool-cases (str_eq hash token)) [
      | inl e ↦ rw (get-put hash token row t.rows, e, eq_refl day, eq_refl month) refl
      | inr e ↦ rw (get-put hash token row t.rows, e) refl
    ]

-- Whether a call of the key counts for the token.
abbrev pub one_if : Bool → String → ClientKey → ℕ
one_if allowed token key = if allowed && str_eq key.key_hash token then 1 else 0

consume-counts :
    (key : ClientKey) (token day month : String) (now : ℕ) (t : Tracker)
    → let (t', (allowed, reason)) = consume key day month now t in
      let (daily, monthly) = current_counts token day month t in
      let (daily', monthly') = current_counts token day month t' in
      (daily' ≡ daily + one_if allowed token key) × (monthly' ≡ monthly + one_if allowed token key)
unfolding consume
consume-counts key token day month now t =
    let own = current_counts key.key_hash day month t in
    elim (Bool-cases (is_used_up key.quota_daily own.0)) [
      | inl e ↦ rw (e, consume) (omega arith, omega arith)
      | inr e ↦ elim (Bool-cases (is_used_up key.quota_monthly own.1)) [
        | inl f ↦ rw (e, f, consume) (omega arith, omega arith)
        | inr f ↦ elim (Bool-cases (str_eq key.key_hash token)) [
          | inl q ↦
              let same = (eq_iff key.key_hash token).0 q in
              rw (e, f, consume, persist-counts key.key_hash token day month own.0 own.1 now t, q)
                (
                  ap (λ x. (current_counts x day month t).0 + 1) same,
                  ap (λ x. (current_counts x day month t).1 + 1) same,
                )
          | inr q ↦
              rw (e, f, consume, persist-counts key.key_hash token day month own.0 own.1 now t, q)
                (omega arith, omega arith)
        ]
      ]
    ]

current_counts-check_rpm :
    (key : ClientKey) (token day month : String) (now : ℕ) (t : Tracker)
    → current_counts token day month (check_rpm key now t).0 ≡ current_counts token day month t
unfolding current_counts
current_counts-check_rpm key token day month now t = rw rows-check_rpm refl

-- A call counts once for its token, in the day and in the month, if it was allowed, and not at all if it
-- was refused, for whatever reason; it never counts for another token.
pub quota_counts :
    (key : ClientKey) (token day month : String) (now : ℕ) (failed : Bool) (t : Tracker)
    → let (t', (allowed, reason)) = try_consume_quota key day month now failed t in
      let (daily, monthly) = current_counts token day month t in
      let (daily', monthly') = current_counts token day month t' in
      (daily' ≡ daily + one_if allowed token key) × (monthly' ≡ monthly + one_if allowed token key)
unfolding try_consume_quota
quota_counts key token day month now failed t =
    let (t', exceeded) = check_rpm key now t in
    let same = current_counts-check_rpm key token day month now t in
    elim (Bool-cases (check_rpm key now t).1) [
      | inl e ↦ rw (e, try_consume_quota, same) (omega arith, omega arith)
      | inr e ↦ elim (Bool-cases failed) [
        | inl f ↦ rw (e, f, try_consume_quota, same) (omega arith, omega arith)
        | inr f ↦ rw (e, f, try_consume_quota, ← same) (consume-counts key token day month now t')
      ]
    ]

-- The transaction lets a call through exactly when neither quota is used up.
abbrev is_free : ClientKey → ℕ × ℕ → Bool
is_free key counts =
    not (is_used_up key.quota_daily counts.0) && not (is_used_up key.quota_monthly counts.1)

consume-is_free :
    (key : ClientKey) (day month : String) (now : ℕ) (t : Tracker)
    → (consume key day month now t).1.0 ≡ is_free key (current_counts key.key_hash day month t)
unfolding consume
consume-is_free key day month now t =
    let own = current_counts key.key_hash day month t in
    elim (Bool-cases (is_used_up key.quota_daily own.0)) [
      | inl e ↦ rw (e, consume) refl
      | inr e ↦ elim (Bool-cases (is_used_up key.quota_monthly own.1)) [
        | inl f ↦ rw (e, f, consume) refl
        | inr f ↦ rw (e, f, consume) refl
      ]
    ]

unused : (quota : ℕ) → is_used_up quota 0 ≡ false
unused quota = ground arith

check_key_quota-is_free :
    (key : ClientKey) (day month : String) (t : Tracker)
    → key.enabled ≡ true
    → check_key_quota key day month false t ≡ is_free key (current_counts key.key_hash day month t)
unfolding check_key_quota current_counts daily_in monthly_in
check_key_quota-is_free key day month t on = elim (Option-cases (get key.key_hash t.rows)) [
  | inl e ↦ rw (e, on, check_key_quota, unused key.quota_daily, unused key.quota_monthly) refl
  | inr (row, e) ↦
      rw (e, on, check_key_quota)
        (elim (is_used_up key.quota_daily (daily_in day (some row)))
          as (λ b.
            (if b
              then false
              else if is_used_up key.quota_monthly (monthly_in month (some row))
              then false
              else true)
            ≡ (not b && not (is_used_up key.quota_monthly (monthly_in month (some row))))) [
              | true ↦ refl
              | false ↦
                  elim (is_used_up key.quota_monthly (monthly_in month (some row)))
                    as (λ b. (if b then false else true) ≡ not b) [ true ↦ refl | false ↦ refl ]
            ])
]

-- `check_key_quota` of an enabled key says whether the next call of the key is allowed, if the key's
-- rate is not exceeded then and SQLite works.
pub check_key_quota-try :
    (key : ClientKey) (day month : String) (now : ℕ) (t : Tracker)
    → key.enabled ≡ true
    → (check_rpm key now t).1 ≡ false
    → check_key_quota key day month false t ≡ (try_consume_quota key day month now false t).1.0
unfolding try_consume_quota
check_key_quota-try key day month now t on free =
    check_key_quota-is_free key day month t on
    ∙ ap (is_free key) (sym (current_counts-check_rpm key key.key_hash day month now t))
    ∙ sym (rw (free, try_consume_quota) (consume-is_free key day month now (check_rpm key now t).0))

-- One call, of any key, in a run.
pub record Call : Type 0 where
  pub key : ClientKey
  pub now : ℕ
  pub failed : Bool

-- How many calls of the token are allowed when the calls come one after the other on one day.
unfoldable pub allowed_calls : String → String → String → List Call → Tracker → ℕ
allowed_calls token day month [] t = 0
allowed_calls token day month (c ∷ calls) t =
    let (t', (allowed, reason)) = try_consume_quota c.key day month c.now c.failed t in
    one_if allowed token c.key + allowed_calls token day month calls t'

-- Every call of the token has that daily quota.
unfoldable pub HasQuota : String → ℕ → List Call → Type 0
HasQuota token quota calls =
    All (λ c. str_eq c.key.key_hash token ≡ true → c.key.quota_daily ≡ quota) calls

try-is_free :
    (key : ClientKey) (day month : String) (now : ℕ) (failed : Bool) (t : Tracker)
    → (try_consume_quota key day month now failed t).1.0 ≡ true
    → is_free key (current_counts key.key_hash day month t) ≡ true
unfolding try_consume_quota
try-is_free key day month now failed t = elim (Bool-cases (check_rpm key now t).1) [
  | inl e ↦ rw (e, try_consume_quota) λ h. absurd (false≢true h)
  | inr e ↦ elim (Bool-cases failed) [
    | inl f ↦ rw (e, f, try_consume_quota) λ h. absurd (false≢true h)
    | inr f ↦
        rw (e, f, try_consume_quota)
          λ h.
            ap (is_free key) (sym (current_counts-check_rpm key key.key_hash day month now t))
            ∙ sym (consume-is_free key day month now (check_rpm key now t).0)
            ∙ h
  ]
]

is_free-lt :
    (key : ClientKey) (counts : ℕ × ℕ) (quota : ℕ)
    → is_free key counts ≡ true
    → key.quota_daily ≡ quota
    → 0 < quota
    → counts.0 < quota
is_free-lt key counts quota free own pos = ground (arith, free, own, pos)

within-quota :
    (key : ClientKey) (token day month : String) (now quota : ℕ) (failed : Bool) (t : Tracker)
    → 0 < quota
    → (str_eq key.key_hash token ≡ true → key.quota_daily ≡ quota)
    → (current_counts token day month t).0 ≤ quota
    → (current_counts token day month (try_consume_quota key day month now failed t).0).0 ≤ quota
within-quota key token day month now quota failed t pos own le =
    let allowed = (try_consume_quota key day month now failed t).1.0 in
    let (counts, _) = quota_counts key token day month now failed t in
    elim (Bool-cases (allowed && str_eq key.key_hash token)) [
      | inl e ↦
          let q : str_eq key.key_hash token ≡ true = ground (arith, e) in
          let lt =
            is_free-lt key (current_counts key.key_hash day month t) quota
              (try-is_free key day month now failed t (ground (arith, e))) (own q) pos in
          let lt' =
            subst (λ x. (current_counts x day month t).0 < quota) ((eq_iff key.key_hash token).0 q)
              lt in
          ground (arith, counts, e, lt')
      | inr e ↦ ground (arith, counts, e, le)
    ]

-- On one day, whatever calls of whatever keys come, at most `quota` calls of a token are allowed whose
-- daily quota that is, the calls counted before included, where the quota is positive and was not
-- exceeded before.
pub daily_quota :
    (token day month : String) (quota : ℕ) (calls : List Call) (t : Tracker)
    → 0 < quota
    → HasQuota token quota calls
    → (current_counts token day month t).0 ≤ quota
    → allowed_calls token day month calls t + (current_counts token day month t).0 ≤ quota
unfolding allowed_calls HasQuota
daily_quota token day month quota [] t pos all le = omega arith
daily_quota token day month quota (c ∷ calls) t pos all le =
    let (counts, _) = quota_counts c.key token day month c.now c.failed t in
    let t' = (try_consume_quota c.key day month c.now c.failed t).0 in
    let rest =
      daily_quota token day month quota calls t' pos all.1
        (within-quota c.key token day month c.now quota c.failed t pos all.0 le) in
    omega (arith, counts, rest)
