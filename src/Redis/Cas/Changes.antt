-- ===== src/Redis/Cas/Changes.antt =====
-- What `_cas_update` and `append_event_atomic` do to the states and to the lists.
use qwen.Prelude.{
  ◌≡◌, refl, sym, ap, ◌∙◌, String, Option, none, some, inl, inr, if◌then◌else◌, str_eq, eq_iff,
  Option-cases, Bool-cases,
}
use qwen.Motion.{MotionEvent}
use qwen.Redis.{TaskState, Key, Server}
use qwen.Redis.Cas.{bump_version, cas_update, append_event_atomic}
use qwen.Redis.Cas.Missing.{cas_update-known, cas_update-missing}

-- A state that is there, changed and its version raised.
abbrev pub changed : (TaskState → TaskState) → Option TaskState → Option TaskState
changed f none = none
changed f (some state) = some (bump_version (f state))

module _ (r : Server) where
  open r use {State, hget, hset, lrange, hget-hset, lrange-hset}

  module _ (tid : String) (f : TaskState → TaskState) (default : Option TaskState) (s : State) where
    pub cas_update-answer : (cas_update r tid f default s).1 ≡ changed f (hget tid s)
    cas_update-answer = elim (Option-cases (hget tid s)) [
      | inl e ↦ rw (cas_update-missing r tid f default s e, e) refl
      | inr (state, e) ↦ rw (cas_update-known r tid f default state s e, e) refl
    ]

    pub lrange-cas_update : (q : Key) → lrange q (cas_update r tid f default s).0 ≡ lrange q s
    lrange-cas_update q = elim (Option-cases (hget tid s)) [
      | inl e ↦ rw (cas_update-missing r tid f default s e) refl
      | inr (state, e) ↦ rw (cas_update-known r tid f default state s e) (lrange-hset q tid _ s)
    ]

    pub hget-cas_update :
        (k : String)
        → hget k (cas_update r tid f default s).0
          ≡ (if str_eq tid k then changed f (hget k s) else hget k s)
    hget-cas_update k = elim (Bool-cases (str_eq tid k)) [
      | inl same ↦
          let here : hget tid s ≡ hget k s = ap (λ j. hget j s) ((eq_iff tid k).0 same) in
          elim (Option-cases (hget tid s)) [
            | inl e ↦ rw (same, cas_update-missing r tid f default s e, sym here ∙ e) refl
            | inr (state, e) ↦
                rw (cas_update-known r tid f default state s e)
                  (hget-hset tid k _ s ∙ rw (same, sym here ∙ e) refl)
          ]
      | inr other ↦ elim (Option-cases (hget tid s)) [
        | inl e ↦ rw (other, cas_update-missing r tid f default s e) refl
        | inr (state, e) ↦
            rw (cas_update-known r tid f default state s e) (hget-hset tid k _ s ∙ rw other refl)
      ]
    ]

  pub lrange-append_event :
      (q : Key) (tid : String) (event : MotionEvent) (status : String) (s : State)
      → lrange q (append_event_atomic r tid event status s).0 ≡ lrange q s
  unfolding append_event_atomic
  lrange-append_event q tid event status s = elim (Option-cases (hget tid s)) [
    | inl e ↦ rw (e, append_event_atomic) refl
    | inr (state, e) ↦ rw (e, append_event_atomic) (lrange-hset q tid _ s)
  ]
