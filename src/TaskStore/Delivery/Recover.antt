-- ===== src/TaskStore/Delivery/Recover.antt =====
-- What `recover_stale_processing` does to the generations of the tasks that it takes back.
use qwen.Prelude.{
  ℕ, ◌<◌, String, ◌≡◌, Bool, true, some, [], ◌∷◌, arith, str_eq, eq_iff, eq_refl, Bool-cases, inl,
  inr,
}
use qwen.Prelude.Dict.{Dict, get, has}
use qwen.TaskStore.{Entry, Store, queue_of}
use qwen.TaskStore.Delivery.{
  Recovery, recover_one, recover_loop, recover_items, processing_of, recover_stale_processing,
  timed_out, bump_state,
}
use qwen.TaskStore.Delivery.Generation.{gen_in, get-change, Grows-recover_one, Grows-recover_loop}

-- A task that the sweep takes back has a higher generation afterwards.
raises-recover_one :
    (tid : String) (e : Entry) (r : Recovery)
    → has tid r.tasks ≡ true
    → gen_in tid r.tasks < gen_in tid (recover_one tid e r).tasks
unfolding recover_one
raises-recover_one tid e r h = ground (arith, get-change tid tid (bump_state) r.tasks, eq_refl tid)

has-recover_one :
    (tid k : String) (e : Entry) (r : Recovery)
    → has tid r.tasks ≡ true
    → has tid (recover_one k e r).tasks ≡ true
unfolding recover_one
has-recover_one tid k e r h = ground (arith, get-change k tid bump_state r.tasks)

raises-recover_loop :
    (tid : String) (late : Entry → Bool) (items : Dict Entry) (r : Recovery) {e : Entry}
    → get tid items ≡ some e
    → late e ≡ true
    → has tid r.tasks ≡ true
    → gen_in tid r.tasks < gen_in tid (recover_loop late items r).tasks
unfolding recover_loop get
raises-recover_loop tid late [] r found t h = cc
raises-recover_loop tid late ((k, e') ∷ items) r {e} found t h = elim (Bool-cases (str_eq k tid)) [
  | inl same ↦ ground (
    arith,
    (eq_iff k tid).0 same,
    raises-recover_one k e' r,
    (Grows-recover_loop late items (recover_one k e' r)).at tid,
  )
  | inr other ↦
      let found' : get tid items ≡ some e = ground (arith, found, other) in
      elim (Bool-cases (late e')) [
        | inl t' ↦ ground (
          arith,
          raises-recover_loop tid late items (recover_one k e' r) found' t
              (has-recover_one tid k e' r h),
          (Grows-recover_one k e' r).at tid,
        )
        | inr t' ↦ ground (arith, raises-recover_loop tid late items r found' t h)
      ]
]

raises-recover_items :
    (d tid : String) (timeout now : ℕ) (items : Dict Entry) (s : Store) {e : Entry}
    → get tid items ≡ some e
    → timed_out now timeout e ≡ true
    → has tid s.tasks ≡ true
    → gen_in tid s.tasks < gen_in tid (recover_items d timeout now items s).0.tasks
unfolding recover_items
raises-recover_items d tid timeout now [] s found t h = unfold get in cc
raises-recover_items d tid timeout now (item ∷ items) s found t h =
    raises-recover_loop tid (timed_out now timeout) (item ∷ items)
      (record { queue = queue_of d s; tasks = s.tasks; processing = item ∷ items; count = 0 }) found
      t h

-- A task that has stood in a device's processing table longer than the timeout has a higher
-- generation after the sweep of that device.
pub raises-recover :
    (d tid : String) (timeout now : ℕ) (s : Store) {e : Entry}
    → get tid (processing_of d s) ≡ some e
    → timed_out now timeout e ≡ true
    → has tid s.tasks ≡ true
    → gen_in tid s.tasks < gen_in tid (recover_stale_processing d timeout now s).0.tasks
unfolding recover_stale_processing
raises-recover d tid timeout now s = raises-recover_items d tid timeout now (processing_of d s) s
