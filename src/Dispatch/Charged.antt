-- ===== src/Dispatch/Charged.antt =====
-- Which tasks are put back after a failed send, and what it costs them.
use qwen.Prelude.{
  ℕ, ◌+◌, String, ◌≡◌, refl, sym, ap, subst, ◌∙◌, Bool, true, false, some, List, [], ◌∷◌, arith,
  inl, inr, str_eq, ltb, if◌then◌else◌, All, All-imp, Bool-cases,
}
use qwen.TaskStore.{Task, Store}
use qwen.TaskStore.Delivery.{increment_retry_count, abandon_processing_task}
use qwen.TaskStore.Delivery.Retries.{
  retries, raise, retries-increment, increment-answer, heap-increment, retries-abandon,
  heap-abandon, retries-requeue, heap-requeue,
}
use qwen.Dispatch.{charge_retries, put_back, max_task_retries}

-- How many of the tasks have this id.
unfoldable pub times : (ℕ → Task) → String → List ℕ → ℕ
times heap k [] = 0
times heap k (t ∷ ts) = (if str_eq (heap t).task_id k then 1 else 0) + times heap k ts

abbrev pub one_more : String → (String → ℕ) → String → ℕ
one_more tid count k = count k + (if str_eq tid k then 1 else 0)

-- The tasks that are within their three retries, counted with those that come before in the list;
-- `count` has the retries of before.
unfoldable pub within_retries : (ℕ → Task) → (String → ℕ) → List ℕ → List ℕ
within_retries heap count [] = []
within_retries heap count (t ∷ ts) =
    let tid = (heap t).task_id in
    let rest = within_retries heap (one_more tid count) ts in
    if ltb 3 (count tid + 1) then rest else t ∷ rest

-- `count` has the retries of these tasks.
abbrev pub Counts : (String → ℕ) → List ℕ → Store → Type 0
Counts count ts s = All (λ u. retries (s.heap u).task_id s ≡ some (count (s.heap u).task_id)) ts

-- The store after the first task of the list.
abbrev charged_one : String → String → Store → Store
charged_one d tid s =
    let (counted, n) = increment_retry_count tid s in
    if ltb max_task_retries n then (abandon_processing_task d tid counted).0 else counted

heap-charged_one : (d tid : String) (s : Store) → (charged_one d tid s).heap ≡ s.heap
heap-charged_one d tid s =
    let (counted, n) = increment_retry_count tid s in
    elim (Bool-cases (ltb max_task_retries n)) [
      | inl e ↦ rw e (heap-abandon d tid counted ∙ heap-increment tid s)
      | inr e ↦ rw e (heap-increment tid s)
    ]

retries-charged_one :
    (k d tid : String) (s : Store)
    → retries k (charged_one d tid s) ≡ (if str_eq tid k then raise (retries k s) else retries k s)
retries-charged_one k d tid s =
    let (counted, n) = increment_retry_count tid s in
    elim (Bool-cases (ltb max_task_retries n)) [
      | inl e ↦ rw e (retries-abandon k d tid counted ∙ retries-increment k tid s)
      | inr e ↦ rw e (retries-increment k tid s)
    ]

raised :
    (b : Bool) (n : ℕ) → (if b then raise (some n) else some n) ≡ some (n + (if b then 1 else 0))
raised true n = refl
raised false n = ap some (omega arith)

charged_one-some :
    (k d tid : String) (n : ℕ) (s : Store)
    → retries k s ≡ some n
    → retries k (charged_one d tid s) ≡ some (n + (if str_eq tid k then 1 else 0))
charged_one-some k d tid n s h =
    retries-charged_one k d tid s
    ∙ ap (λ o. if str_eq tid k then raise o else o) h
    ∙ raised (str_eq tid k) n

pub heap-charge : (d : String) (ts : List ℕ) (s : Store) → (charge_retries d ts s).0.heap ≡ s.heap
unfolding charge_retries
heap-charge d [] s = refl
heap-charge d (t ∷ ts) s =
    let tid = (s.heap t).task_id in
    heap-charge d ts (charged_one d tid s) ∙ heap-charged_one d tid s

pub retries-charge :
    (k d : String) (ts : List ℕ) (n : ℕ) (s : Store)
    → retries k s ≡ some n
    → retries k (charge_retries d ts s).0 ≡ some (n + times s.heap k ts)
unfolding charge_retries times
retries-charge k d [] n s h = h ∙ ap some (omega arith)
retries-charge k d (t ∷ ts) n s h =
    let tid = (s.heap t).task_id in
    retries-charge k d ts _ (charged_one d tid s) (charged_one-some k d tid n s h)
    ∙ rw (heap-charged_one d tid s) (ap some (omega arith))

charged_one-Counts :
    (d tid : String) (count : String → ℕ) (ts : List ℕ) (s : Store)
    → Counts count ts s
    → Counts (one_more tid count) ts (charged_one d tid s)
charged_one-Counts d tid count ts s known =
    let s' = charged_one d tid s in
    subst
      (λ (heap : ℕ → Task).
        All (λ u. retries (heap u).task_id s' ≡ some (one_more tid count (heap u).task_id)) ts)
      (sym (heap-charged_one d tid s))
      (All-imp ts (λ u h. charged_one-some (s.heap u).task_id d tid _ s h) known)

-- The tasks that `charge_retries` keeps are those within their retries.
pub charge-kept :
    (d : String) (ts : List ℕ) (count : String → ℕ) (s : Store)
    → Counts count ts s
    → (charge_retries d ts s).1 ≡ within_retries s.heap count ts
unfolding charge_retries within_retries
charge-kept d [] count s known = refl
charge-kept d (t ∷ ts) count s known =
    let tid = (s.heap t).task_id in
    let s' = charged_one d tid s in
    let answer = increment-answer tid s (count tid) known.0 in
    let rest =
      charge-kept d ts (one_more tid count) s' (charged_one-Counts d tid count ts s known.1)
      ∙ ap (λ heap. within_retries heap (one_more tid count) ts) (heap-charged_one d tid s) in
    ap (λ (n : ℕ). if ltb 3 n then (charge_retries d ts s').1 else t ∷ (charge_retries d ts s').1)
      answer
    ∙ ap (λ us. if ltb 3 (count tid + 1) then us else t ∷ us) rest

pub heap-put_back : (d : String) (ts : List ℕ) (s : Store) → (put_back d (s, ts)).0.heap ≡ s.heap
heap-put_back d [] s = refl
heap-put_back d (t ∷ ts) s = heap-requeue d (t ∷ ts) s

pub retries-put_back :
    (k d : String) (n : ℕ) (ts : List ℕ) (s : Store)
    → retries k s ≡ some n
    → retries k (put_back d (s, ts)).0 ≡ some n
retries-put_back k d n [] s h = h
retries-put_back k d n (t ∷ ts) s h = retries-requeue k d n (t ∷ ts) s h
