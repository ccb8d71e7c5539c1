-- ===== src/Redis.antt =====
-- What the Redis backends rely on of the Redis server, and the data of device_gateway/redis_store.py.
-- A value of the hash `tasks` and an item of a list are JSON texts of dicts; they are the dicts here,
-- and an item that is no JSON object is `corrupt`. The time to live of a key is not modelled.
pub mod Table
pub mod Cas
pub mod Queue
pub mod Processing
pub mod Store
pub mod Concurrent
use qwen.Prelude.{
  ℕ, suc, ◌+◌, ◌≡◌, String, Bool, true, false, ◌&&◌, Option, none, some, List, [], ◌∷◌, ◌++◌, ◌==◌,
  if◌then◌else◌, str_eq, length,
}
use qwen.Prelude.Dict.{Dict}
use qwen.Motion.{MotionEvent}

-- A task dict; `params` stands for the keys that the store only passes on.
pub record Task : Type 0 where
  pub task_id : String
  pub device_id : String
  pub capability : String
  pub source : String
  pub params : ℕ
  pub enqueued_at : ℕ  -- `_enqueued_at`
  pub processing_at : ℕ  -- `_processing_at`
  pub dispatch_gen : Option ℕ  -- `_dispatch_gen`

-- An item of a queue.
pub data Item : Type 0 where
  item : Task → Item
  corrupt : String → Item

-- The state dict of a task; a number is 0 where its key is missing.
pub record TaskState : Type 0 where
  pub task : Option Task
  pub status : String
  pub events : List MotionEvent
  pub retry_count : ℕ
  pub dispatch_gen : ℕ
  pub processing_started_at : ℕ
  pub recovered_at : Option ℕ
  pub error : Option String
  pub version : ℕ  -- `_version`

abbrev pub new_state : Option Task → String → TaskState
new_state task status = record {
  task = task;
  status = status;
  events = [];
  retry_count = 0;
  dispatch_gen = 0;
  processing_started_at = 0;
  recovered_at = none;
  error = none;
  version = 0;
}

-- The keys of the lists of a device.
pub data Key : Type 0 where
  pending processing : String → Key

abbrev pub key_eq : Key → Key → Bool
key_eq (pending d) (pending e) = str_eq d e
key_eq (processing d) (processing e) = str_eq d e
key_eq _ _ = false

abbrev gen_eq : Option ℕ → Option ℕ → Bool
gen_eq none none = true
gen_eq (some a) (some b) = a == b
gen_eq _ _ = false

-- Two items are the same text.
unfoldable pub item_eq : Item → Item → Bool
item_eq (item t) (item u) =
    str_eq t.task_id u.task_id
    && str_eq t.device_id u.device_id
    && str_eq t.capability u.capability
    && str_eq t.source u.source
    && t.params == u.params
    && t.enqueued_at == u.enqueued_at
    && t.processing_at == u.processing_at
    && gen_eq t.dispatch_gen u.dispatch_gen
item_eq (corrupt a) (corrupt b) = str_eq a b
item_eq _ _ = false

unfoldable pub occurs : Item → List Item → Bool
occurs x [] = false
occurs x (y ∷ ys) = if item_eq y x then true else occurs x ys

unfoldable pub remove_first : Item → List Item → List Item
remove_first x [] = []
remove_first x (y ∷ ys) = let rest = remove_first x ys in if item_eq y x then ys else y ∷ rest

unfoldable pub remove_all : Item → List Item → List Item
remove_all x [] = []
remove_all x (y ∷ ys) = let rest = remove_all x ys in if item_eq y x then rest else y ∷ rest

abbrev pub head_of : List Item → Option Item
head_of [] = none
head_of (x ∷ xs) = some x

abbrev pub tail_of : List Item → List Item
tail_of [] = []
tail_of (x ∷ xs) = xs

-- The server as its documentation describes it: the hash `tasks`, the lists, and the commands, each of
-- which is atomic. A command on a key changes that key only.
pub record Server : Type 1 where
  pub State : Type 0
  pub hget : String → State → Option TaskState
  pub hset : String → TaskState → State → State
  pub hgetall : State → Dict TaskState
  pub incr : State → State × ℕ
  pub scan_pending : State → List String
  pub lrange : Key → State → List Item
  pub rpush : Key → Item → State → State
  pub lpush : Key → Item → State → State
  pub lrem_one : Key → Item → State → State × ℕ
  pub lrem_all : Key → Item → State → State × ℕ
  pub lmove : Key → Key → State → State × Option Item
  pub hget-hset :
      (k j : String) (v : TaskState) (s : State)
      → hget j (hset k v s) ≡ (if str_eq k j then some v else hget j s)
  pub lrange-hset :
      (q : Key) (k : String) (v : TaskState) (s : State) → lrange q (hset k v s) ≡ lrange q s
  pub hget-rpush : (k : String) (q : Key) (x : Item) (s : State) → hget k (rpush q x s) ≡ hget k s
  pub lrange-rpush :
      (p q : Key) (x : Item) (s : State)
      → lrange p (rpush q x s) ≡ (if key_eq q p then lrange p s ++ x ∷ [] else lrange p s)
  pub hget-lpush : (k : String) (q : Key) (x : Item) (s : State) → hget k (lpush q x s) ≡ hget k s
  pub lrange-lpush :
      (p q : Key) (x : Item) (s : State)
      → lrange p (lpush q x s) ≡ (if key_eq q p then x ∷ lrange p s else lrange p s)
  pub hget-lrem_one :
      (k : String) (q : Key) (x : Item) (s : State) → hget k (lrem_one q x s).0 ≡ hget k s
  pub lrange-lrem_one :
      (p q : Key) (x : Item) (s : State)
      → lrange p (lrem_one q x s).0
        ≡ (if key_eq q p then remove_first x (lrange p s) else lrange p s)
  pub removed-lrem_one :
      (q : Key) (x : Item) (s : State)
      → (lrem_one q x s).1 ≡ (if occurs x (lrange q s) then 1 else 0)
  pub hget-lrem_all :
      (k : String) (q : Key) (x : Item) (s : State) → hget k (lrem_all q x s).0 ≡ hget k s
  pub lrange-lrem_all :
      (p q : Key) (x : Item) (s : State)
      → lrange p (lrem_all q x s).0 ≡ (if key_eq q p then remove_all x (lrange p s) else lrange p s)
  pub removed-lrem_all :
      (q : Key) (x : Item) (s : State)
      → (lrem_all q x s).1 + length (remove_all x (lrange q s)) ≡ length (lrange q s)
  -- from the head of one list to the head of another
  pub hget-lmove : (k : String) (p q : Key) (s : State) → hget k (lmove p q s).0 ≡ hget k s
  pub lmove-moved : (p q : Key) (s : State) → (lmove p q s).1 ≡ head_of (lrange p s)
  pub lrange-lmove :
      (p q k : Key) (s : State)
      → key_eq p q ≡ false
      → lrange k (lmove p q s).0 ≡ (
          if key_eq p k
          then tail_of (lrange k s)
          else if key_eq q k
          then (elim (head_of (lrange p s)) [ none ↦ lrange k s | some x ↦ x ∷ lrange k s ])
          else lrange k s)
