-- ===== src/Sessions/Registered.antt =====
-- Which session a device has.
use qwen.Prelude.{
  ℕ, ◌≤◌, ◌≡◌, refl, sym, ap, subst, ◌∙◌, String, Bool, true, false, ◌&&◌, not, Option, none, some,
  List, [], ◌∷◌, inl, inr, arith, ◌==◌, if◌then◌else◌, str_eq, eq_iff, eq_refl, length, Bool-cases,
  Option-cases,
}
use qwen.Prelude.Dict.{Dict, get, has, member, get-put_self, get-remove, length-put}
use qwen.Sessions.{
  DeviceSession, Registry, superseded, max_device_sessions, register, unregister, evict,
  take_outstanding, remove_loop, stale_ids, is_zombie, remove_zombies,
}

-- The registry never holds more devices than the limit.
pub length-register :
    (r now : ℕ) (g : Registry)
    → length g.sessions ≤ max_device_sessions
    → length (register r now g).0.sessions ≤ max_device_sessions
unfolding register
length-register r now g h = ground (arith, h, length-put (g.heap r).device_id r g.sessions)

get-unregister :
    (d : String) (r websocket : ℕ) (g : Registry)
    → get d g.sessions ≡ some r
    → get d (unregister d (some websocket) g).sessions
      ≡ (if websocket == (g.heap r).websocket then none else some r)
unfolding unregister
get-unregister d r websocket g q = elim (Bool-cases (websocket == (g.heap r).websocket)) [
  | inl e ↦ rw (q, e, unregister) (get-remove d d g.sessions ∙ rw eq_refl refl)
  | inr e ↦ rw (q, e, unregister) q
]

get-register :
    (r now p : ℕ) (g : Registry)
    → get (g.heap r).device_id g.sessions ≡ some p
    → (get (g.heap r).device_id (register r now g).0.sessions ≡ some r)
      × (((register r now g).0.heap r).websocket ≡ (g.heap r).websocket)
      × ((register r now g).1 ≡ superseded p)
unfolding register
get-register r now p g q =
    rw (q, register) (get-put_self (g.heap r).device_id r g.sessions, ground arith, refl)

-- A session that takes its device over from another one returns that one; when a connection of the
-- device ends then, the new session stays unless the connection is its own.
pub unregister-register :
    (r now previous websocket : ℕ) (g : Registry)
    → get (g.heap r).device_id g.sessions ≡ some previous
    → let d = (g.heap r).device_id in
      let (g', result) = register r now g in
      (result ≡ superseded previous)
      × (get d (unregister d (some websocket) g').sessions
          ≡ (if websocket == (g.heap r).websocket then none else some r))
unregister-register r now previous websocket g q =
    let (there, same, result) = get-register r now previous g q in
    (
      result,
      get-unregister (g.heap r).device_id r websocket (register r now g).0 there
          ∙ ap (λ w. if websocket == w then none else some r) same,
    )

evict-sessions :
    (d e : String) (r : ℕ) (g : Registry)
    → get e (evict d r g).sessions ≡ (if str_eq d e then none else get e g.sessions)
unfolding evict take_outstanding
evict-sessions d e r g = get-remove d e g.sessions

get-remove_loop :
    (ids : List String) (e : String) (g : Registry)
    → get e (remove_loop ids g).0.sessions ≡ (if member e ids then none else get e g.sessions)
unfolding remove_loop member
get-remove_loop [] e g = refl
get-remove_loop (d ∷ ids) e g = elim (Option-cases (get d g.sessions)) [
  | inl q ↦ rw (q, remove_loop) (get-remove_loop ids e g ∙ ground (arith, q, eq_iff d e))
  | inr (r, q) ↦
      rw (q, remove_loop)
        (get-remove_loop ids e (evict d r g) ∙ ground (arith, evict-sessions d e r g))
]

-- Each device is a key once.
unfoldable pub are_distinct : Dict ℕ → Bool
are_distinct [] = true
are_distinct ((d, r) ∷ rest) = not (has d rest) && are_distinct rest

-- Whether the device has a session that counts as stale.
abbrev pub has_stale : (DeviceSession → Bool) → (ℕ → DeviceSession) → Option ℕ → Bool
has_stale stale heap none = false
has_stale stale heap (some r) = stale (heap r)

member-absent :
    (stale : DeviceSession → Bool) (heap : ℕ → DeviceSession) (e : String) (sessions : Dict ℕ)
    → has e sessions ≡ false
    → member e (stale_ids stale heap sessions) ≡ false
unfolding stale_ids member get
member-absent stale heap e [] h = refl
member-absent stale heap e ((d, r) ∷ rest) h =
    let ih = member-absent stale heap e rest in
    elim (Bool-cases (stale (heap r))) [
      | inl q ↦ rw q (ground (arith, h, ih))
      | inr q ↦ rw q (ground (arith, h, ih))
    ]

member-stale_ids :
    (stale : DeviceSession → Bool) (heap : ℕ → DeviceSession) (e : String) (sessions : Dict ℕ)
    → are_distinct sessions ≡ true
    → member e (stale_ids stale heap sessions) ≡ has_stale stale heap (get e sessions)
unfolding stale_ids member get are_distinct
member-stale_ids stale heap e [] h = refl
member-stale_ids stale heap e ((d, r) ∷ rest) h =
    let ih = member-stale_ids stale heap e rest (ground (arith, h)) in
    elim (Bool-cases (str_eq d e)) [
      | inl p ↦
          let once : has e rest ≡ false =
            subst (λ k. has k rest ≡ false) ((eq_iff d e).0 p) (ground (arith, h)) in
          elim (Bool-cases (stale (heap r))) [
            | inl q ↦ rw (q, p) (sym q)
            | inr q ↦ rw (q, p) (member-absent stale heap e rest once ∙ sym q)
          ]
      | inr p ↦ elim (Bool-cases (stale (heap r))) [ inl q ↦ rw (q, p) ih | inr q ↦ rw (q, p) ih ]
    ]

-- The eviction removes exactly the devices whose session has not been seen for longer than the timeout,
-- where each device is registered once.
pub get-remove_zombies :
    (timeout now : ℕ) (e : String) (g : Registry)
    → are_distinct g.sessions ≡ true
    → get e (remove_zombies timeout now g).0.sessions ≡ (
        if has_stale (is_zombie timeout now) g.heap (get e g.sessions)
        then none
        else get e g.sessions)
unfolding remove_zombies
get-remove_zombies timeout now e g once =
    get-remove_loop (stale_ids (is_zombie timeout now) g.heap g.sessions) e g
    ∙ ap (λ b. if b then none else get e g.sessions)
        (member-stale_ids (is_zombie timeout now) g.heap e g.sessions once)
