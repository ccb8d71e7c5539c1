-- ===== src/TaskStore/Delivery/Ack.antt =====
-- What an acknowledgement does, on every branch of `ack_processing`.
use qwen.Prelude.{
  ℕ, String, ◌≡◌, Bool, true, false, ◌&&◌, not, Option, none, arith, str_eq, eq_iff, eq_refl,
  if◌then◌else◌,
}
use qwen.Prelude.Dict.{Dict, get, remove, has, get-put, get-remove}
use qwen.TaskStore.{Entry, Store}
use qwen.TaskStore.Delivery.{ack_processing, processing_of, is_stale_ack}

-- An acknowledgement succeeds exactly when its generation is not refused and the task is in the
-- device's processing table; then that entry, and no other entry of any device, is gone; otherwise
-- every entry stays. The queues stay in all cases.
pub ack_exact :
    (strict : Bool) (d tid : String) (gen : Option ℕ) (s : Store) (e k : String)
    → let (s', done) = ack_processing strict d tid gen s in
      (done ≡ (not (is_stale_ack strict gen (get tid s.tasks)) && has tid (processing_of d s)))
      × (get k (processing_of e s')
          ≡ (if done && (str_eq d e && str_eq tid k) then none else get k (processing_of e s)))
      × (s'.pending ≡ s.pending)
unfolding ack_processing
ack_exact strict d tid gen s e k =
    let removed : Dict Entry = remove tid (processing_of d s) in
    (
      ground arith,
      ground (
        arith,
        get-put d e removed s.processing,
        get-remove tid k (processing_of d s),
        eq_iff d e,
        eq_iff tid k,
      ),
      ground arith,
    )

-- A task that was acknowledged cannot be acknowledged again, with whatever generation.
pub ack_once :
    (strict strict' : Bool) (d tid : String) (gen gen' : Option ℕ) (s : Store)
    → (ack_processing strict d tid gen s).1 ≡ true
    → (ack_processing strict' d tid gen' (ack_processing strict d tid gen s).0).1 ≡ false
ack_once strict strict' d tid gen gen' s h =
    let s' = (ack_processing strict d tid gen s).0 in
    ground (
      arith,
      ack_exact strict d tid gen s d tid,
      ack_exact strict' d tid gen' s' d tid,
      eq_refl d,
      eq_refl tid,
    )
