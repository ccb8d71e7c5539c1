-- ===== src/Workflow/RedisLock/Runs.antt =====
-- Several processes that acquire and release the Redis locks of tasks, in any order, while keys may
-- expire.
mod Tests
use qwen.Prelude.{
  ℕ, ◌≡◌, ◌≢◌, refl, sym, ap, ◌∙◌, String, Bool, true, false, ◌&&◌, not, false≢true, Option, none,
  some, inl, inr, arith, ◌==◌, if◌then◌else◌, str_eq, eq_iff, eq_refl, is_some, Bool-cases,
  Option-cases,
}
use qwen.Prelude.Dict.{Dict, get, put, remove, get-put, get-remove}
use qwen.Workflow.RedisLock.{LockServer, acquire, delete_if_owner, release}

abbrev owns : Option String → Option String → Bool
owns (some nonce) (some held) = str_eq held nonce
owns _ _ = false

module _ (r : LockServer) where
  open r use {State, lookup, set_nx, del, lookup-set_nx, set_nx-answer, lookup-del}

  module _ (tid nonce : String) (s : State) (m : Dict String) where
    lookup-acquire :
        (j : String)
        → lookup j (acquire r tid nonce (s, m)).0 ≡ (
            if str_eq tid j
            then (if is_some (lookup j s) then lookup j s else some nonce)
            else lookup j s)
    unfolding acquire
    lookup-acquire j = lookup-set_nx tid j nonce s

    get-acquire :
        (j : String)
        → get j (acquire r tid nonce (s, m)).1 ≡ (
            if is_some (lookup tid s)
            then get j m
            else if str_eq tid j
            then some nonce
            else get j m)
    unfolding acquire
    get-acquire j =
        rw (set_nx-answer tid nonce s)
          (elim (is_some (lookup tid s))
            as (λ (b : Bool).
              get j (if not b then put tid nonce m else m)
              ≡ (if b then get j m else if str_eq tid j then some nonce else get j m)) [
                | true ↦ refl
                | false ↦ get-put tid j nonce m
              ])

  lookup-delete_if_owner :
      (tid nonce j : String) (s : State)
      → lookup j (delete_if_owner r tid nonce s)
        ≡ (if str_eq tid j && owns (some nonce) (lookup tid s) then none else lookup j s)
  unfolding delete_if_owner
  lookup-delete_if_owner tid nonce j s = ground (arith, lookup-del tid j s)

  lookup-release :
      (tid j : String) (s : State) (m : Dict String)
      → lookup j (release r tid (s, m)).0
        ≡ (if str_eq tid j && owns (get tid m) (lookup tid s) then none else lookup j s)
  unfolding release
  lookup-release tid j s m = elim (Option-cases (get tid m)) [
    | inl e ↦ rw (e, release) (ground arith)
    | inr (nonce, e) ↦ rw (e, release) (lookup-delete_if_owner tid nonce j s)
  ]

  -- `owner` is the process whose call made a nonce; the program does not keep it.
  pub record World : Type 0 where
    pub table : State
    pub nonces : ℕ → Dict String
    pub owner : String → Option ℕ

  abbrev pub acquired : ℕ → String → String → World → World
  acquired p tid nonce v = record {
    table = (acquire r tid nonce (v.table, v.nonces p)).0;
    nonces = λ q. if q == p then (acquire r tid nonce (v.table, v.nonces p)).1 else v.nonces q;
    owner = λ n. if str_eq nonce n then some p else v.owner n;
  }

  abbrev pub released : ℕ → String → World → World
  released p tid v = record {
    table = (release r tid (v.table, v.nonces p)).0;
    nonces = λ q. if q == p then (release r tid (v.table, v.nonces p)).1 else v.nonces q;
    owner = v.owner;
  }

  -- A run from `w`; whether keys expire in it is the Boolean. A nonce is made once.
  pub data Run (expiry : Bool) (w : World) : World → Type 0 where
    start : Run expiry w w
    acquires :
        {v : World} (p : ℕ) (tid nonce : String)
        → v.owner nonce ≡ none
        → Run expiry w v
        → Run expiry w (acquired p tid nonce v)
    releases : {v : World} (p : ℕ) (tid : String) → Run expiry w v → Run expiry w (released p tid v)
    expires :
        {v : World} (tid : String)
        → expiry ≡ true
        → Run expiry w v
        → Run expiry w (record v { table = del tid v.table })

  record IsOwned (expiry : Bool) (v : World) : Type 0 where
    made : (p : ℕ) (tid n : String) → get tid (v.nonces p) ≡ some n → v.owner n ≡ some p
    -- without expiry, a nonce is kept as long as its lock
    locked :
        (p : ℕ) (tid n : String)
        → expiry ≡ false
        → get tid (v.nonces p) ≡ some n
        → lookup tid v.table ≡ some n

  acquired-IsOwned :
      (expiry : Bool) (v : World) (p : ℕ) (tid nonce : String)
      → v.owner nonce ≡ none
      → IsOwned expiry v
      → IsOwned expiry (acquired p tid nonce v)
  acquired-IsOwned expiry v p tid nonce fresh h = record {
    made = λ q j n k. ground (
      arith,
      h.made q j n,
      h.made p j n,
      get-acquire tid nonce v.table (v.nonces p) j,
      eq_iff nonce n,
    );
    locked = λ q j n e k. ground (
      arith,
      h.locked q j n,
      h.locked p j n,
      get-acquire tid nonce v.table (v.nonces p) j,
      lookup-acquire tid nonce v.table (v.nonces p) j,
      eq_iff tid j,
    );
  }

  released-IsOwned :
      (expiry : Bool) (v : World) (p : ℕ) (tid : String)
      → IsOwned expiry v
      → IsOwned expiry (released p tid v)
  unfolding release
  released-IsOwned expiry v p tid h = record {
    made = λ q j n k. ground (arith, h.made q j n, h.made p j n, get-remove tid j (v.nonces p));
    locked = λ q j n e k. elim (Option-cases (get tid (v.nonces p))) [
      | inl none_held ↦ ground (
        arith,
        h.locked q j n,
        h.locked p j n,
        none_held,
        get-remove tid j (v.nonces p),
        lookup-release tid j v.table (v.nonces p),
        eq_iff tid j,
      )
      | inr (m, held) ↦ ground (
        arith,
        h.locked q j n,
        h.locked p j n,
        held,
        get-remove tid j (v.nonces p),
        h.made q j n,
        h.made p tid m,
        h.locked p tid m,
        lookup-release tid j v.table (v.nonces p),
        eq_iff tid j,
        eq_iff n m,
      )
    ];
  }

  expired-IsOwned :
      (expiry : Bool) (v : World) (tid : String)
      → expiry ≡ true
      → IsOwned expiry v
      → IsOwned expiry (record v { table = del tid v.table })
  expired-IsOwned expiry v tid on h = record {
    made = h.made;
    locked = λ p j n off k. absurd (false≢true (sym off ∙ on));
  }

  module _ (w : World) (idle : (p : ℕ) (tid : String) → get tid (w.nonces p) ≡ none) where
    Run-IsOwned : {expiry : Bool} {v : World} → Run expiry w v → IsOwned expiry v
    Run-IsOwned start = record {
      made = λ p tid n h. absurd (let i = idle p tid in cc);
      locked = λ p tid n e h. absurd (let i = idle p tid in cc);
    }
    Run-IsOwned {expiry} (acquires {v} p tid nonce fresh run) =
        acquired-IsOwned expiry v p tid nonce fresh (Run-IsOwned run)
    Run-IsOwned {expiry} (releases {v} p tid run) =
        released-IsOwned expiry v p tid (Run-IsOwned run)
    Run-IsOwned {expiry} (expires {v} tid on run) =
        expired-IsOwned expiry v tid on (Run-IsOwned run)

    -- While no key expires, two processes never hold the lock of a task at once, whatever calls they have
    -- made in whatever order. Conditions: no process holds a lock at the start, and no nonce is made
    -- twice.
    pub one_holder :
        {v : World} (p q : ℕ) (tid n m : String)
        → Run false w v
        → get tid (v.nonces p) ≡ some n
        → get tid (v.nonces q) ≡ some m
        → p ≡ q
    one_holder {v} p q tid n m run hp hq =
        let h = Run-IsOwned run in
        let a = h.locked p tid n refl hp in
        let b = h.locked q tid m refl hq in
        let c = h.made p tid n hp in let e = h.made q tid m hq in ground arith

    -- A process that releases a lock never frees one that another process has acquired, also where keys
    -- have expired. Conditions: as above, and the nonce in the lock was made by another process.
    pub release_own :
        {expiry : Bool} {v : World} (p q : ℕ) (tid n : String)
        → Run expiry w v
        → lookup tid v.table ≡ some n
        → v.owner n ≡ some q
        → p ≢ q
        → lookup tid (released p tid v).table ≡ some n
    release_own {expiry} {v} p q tid n run held made other =
        let h = Run-IsOwned run in
        elim (Option-cases (get tid (v.nonces p))) [
          | inl e ↦ ground (arith, lookup-release tid tid v.table (v.nonces p), e)
          | inr (m, e) ↦ ground (
            arith,
            lookup-release tid tid v.table (v.nonces p),
            e,
            h.made p tid m,
            eq_iff n m,
            other,
          )
        ]

  acquire-free :
      (tid n : String) (s : State) (m : Dict String)
      → lookup tid s ≡ none
      → (lookup tid (acquire r tid n (s, m)).0 ≡ some n)
        × (get tid (acquire r tid n (s, m)).1 ≡ some n)
  acquire-free tid n s m free = (
    lookup-acquire tid n s m tid ∙ rw (eq_refl tid, free) refl,
    get-acquire tid n s m tid ∙ rw (eq_refl tid, free) refl,
  )

  release-held :
      (tid n : String) (s : State) (m : Dict String)
      → lookup tid s ≡ some n
      → get tid m ≡ some n
      → lookup tid (release r tid (s, m)).0 ≡ none
  release-held tid n s m held kept =
      lookup-release tid tid s m ∙ rw (eq_refl tid, held, kept) (ground (arith, eq_refl n))

  -- The threads of a process share its nonces. Where the lock of one has expired and another one has
  -- acquired it, the first one's release frees the lock of the second.
  pub shared_nonce :
      (tid n m : String) (s : State) (nonces : Dict String)
      → let first = acquire r tid n (s, nonces) in
        let second = acquire r tid m (del tid first.0, first.1) in
        (lookup tid second.0 ≡ some m) × (lookup tid (release r tid (second.0, second.1)).0 ≡ none)
  shared_nonce tid n m s nonces =
      let first = acquire r tid n (s, nonces) in
      let free : lookup tid (del tid first.0) ≡ none =
        lookup-del tid tid first.0 ∙ rw (eq_refl tid) refl in
      let (held, kept) = acquire-free tid m (del tid first.0) first.1 free in
      (held, release-held tid m _ _ held kept)
