-- ===== src/Sessions.antt =====
-- device_gateway/sessions.py: the registry of device connections. A session is an object that the
-- registry and the connection's handler share: it is a reference into `heap`. A websocket is a number,
-- compared as `is` compares. The monotonic clock is an argument, in whole microseconds.
pub mod Registered
mod Tests
use qwen.Prelude.{
  ℕ, ◌+◌, String, Bool, true, false, ◌&&◌, not, Option, none, some, List, [], ◌∷◌, ltb, leb, ◌==◌,
  if◌then◌else◌, length,
}
use qwen.Prelude.Dict.{Dict, get, put, remove}
use qwen.TaskStore.{Store}
use qwen.TaskStore.Delivery.{requeue_pending_tasks}

-- What the registry reads and writes of a session.
pub record DeviceSession : Type 0 where
  pub device_id : String
  pub websocket : ℕ
  pub last_uptime_ms : ℕ
  pub last_seen_at : ℕ
  pub inflight_tasks : Dict ℕ

pub record Registry : Type 0 where
  pub heap : ℕ → DeviceSession
  pub sessions : Dict ℕ
  pub store : Store  -- the task store

abbrev pub max_device_sessions : ℕ
max_device_sessions = 2000

abbrev set_session : (ℕ → DeviceSession) → ℕ → DeviceSession → ℕ → DeviceSession
set_session heap r session q = if q == r then session else heap q

-- `DeviceSession.mark_task_dispatched` and `mark_task_acknowledged`
unfoldable pub mark_dispatched : ℕ → ℕ → Registry → Registry
mark_dispatched r task g = record g {
  heap = set_session g.heap r (record (g.heap r) {
    inflight_tasks = put (g.store.heap task).task_id task (g.heap r).inflight_tasks;
  });
}

pub mark_acknowledged : ℕ → String → Registry → Registry
mark_acknowledged r tid g = record g {
  heap =
      set_session g.heap r
        (record (g.heap r) { inflight_tasks = remove tid (g.heap r).inflight_tasks });
}

unfoldable pub outstanding : Dict ℕ → List ℕ
outstanding [] = []
outstanding ((tid, task) ∷ rest) = task ∷ outstanding rest

unfoldable pub take_outstanding : ℕ → Registry → Registry × List ℕ
take_outstanding r g = (
  record g { heap = set_session g.heap r (record (g.heap r) { inflight_tasks = [] }) },
  outstanding (g.heap r).inflight_tasks,
)

-- What `register` returns: nothing, the session that is superseded, or the text "too_many".
pub data Registration : Type 0 where
  first : Registration
  superseded : ℕ → Registration
  too_many : Registration

abbrev previous_of : Option ℕ → Registration
previous_of none = first
previous_of (some r) = superseded r

abbrev is_none {ℓ} : {A : Type ℓ} → Option A → Bool
is_none none = true
is_none (some a) = false

pub register : ℕ → ℕ → Registry → Registry × Registration
register r now g =
    let d = (g.heap r).device_id in
    let previous = get d g.sessions in
    if is_none previous && leb max_device_sessions (length g.sessions) then (g, too_many) else (
      record g {
        heap = set_session g.heap r (record (g.heap r) { last_seen_at = now });
        sessions = put d r g.sessions;
      },
      previous_of previous,
    )

abbrev pub is_other : Option ℕ → ℕ → Bool
is_other none current = false
is_other (some websocket) current = not (websocket == current)

unfoldable pub unregister : String → Option ℕ → Registry → Registry
unregister d websocket g = elim (get d g.sessions) [
  | none ↦ g
  | some r ↦
      if is_other websocket (g.heap r).websocket
      then g
      else record g { sessions = remove d g.sessions }
]

pub update_heartbeat : String → ℕ → ℕ → Registry → Registry
update_heartbeat d uptime now g = elim (get d g.sessions) [
  | none ↦ g
  | some r ↦ record g {
    heap = set_session g.heap r (record (g.heap r) { last_uptime_ms = uptime; last_seen_at = now });
  }
]

-- `last_seen_at < now - timeout_seconds`
pub is_zombie : ℕ → ℕ → DeviceSession → Bool
is_zombie timeout now session = ltb (session.last_seen_at + timeout) now

pub stale_ids : (DeviceSession → Bool) → (ℕ → DeviceSession) → Dict ℕ → List String
stale_ids stale heap [] = []
stale_ids stale heap ((d, r) ∷ rest) =
    let ids = stale_ids stale heap rest in if stale (heap r) then d ∷ ids else ids

-- The tasks of an evicted session go back to the device's queue; the memory store raises nothing.
requeue_outstanding : String → List ℕ → Store → Store
requeue_outstanding d [] s = s
requeue_outstanding d (task ∷ tasks) s = (requeue_pending_tasks d (task ∷ tasks) s).0

-- One round of the loop, for a session that is there.
pub evict : String → ℕ → Registry → Registry
unfolding requeue_outstanding
evict d r g =
    let (g', tasks) = take_outstanding r (record g { sessions = remove d g.sessions }) in
    record g' { store = requeue_outstanding d tasks g'.store }

pub remove_loop : List String → Registry → Registry × List ℕ
remove_loop [] g = (g, [])
remove_loop (d ∷ ids) g = elim (get d g.sessions) [
  | none ↦ remove_loop ids g
  | some r ↦ let (g', removed) = remove_loop ids (evict d r g) in (g', r ∷ removed)
]

pub remove_zombies : ℕ → ℕ → Registry → Registry × List ℕ
remove_zombies timeout now g = remove_loop (stale_ids (is_zombie timeout now) g.heap g.sessions) g

pub clear : Registry → Registry
clear g = record g { sessions = [] }
