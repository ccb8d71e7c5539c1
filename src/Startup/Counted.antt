-- ===== src/Startup/Counted.antt =====
-- What the counts of the startup recovery count.
use qwen.Prelude.{
  ℕ, ◌+◌, ◌≡◌, refl, ap, ◌∙◌, String, Bool, true, false, List, [], ◌∷◌, arith, if◌then◌else◌,
  length, select, not,
}
use qwen.TaskStore.{Store, task_snapshot, list_inflight_task_ids}
use qwen.Ledger.{Ledger}
use qwen.Workflow.State.{TaskState}
use qwen.Workflow.Orchestrator.{Orchestrator, Result, ok, err, get_state}
use qwen.Workflow.Orchestrator.Coherence.{
  IsCoherent, ledger_state, current_state_lem, current_state-IsCoherent, ledger-current_state,
}
use qwen.Startup.{Report, is_mismatch, count_task, scan, recover_inflight_tasks}

abbrev pub is_known : Result TaskState → Bool
is_known (ok state) = true
is_known (err x) = false

abbrev pub disagrees : Store → String → Result TaskState → Bool
disagrees s tid (err x) = false
disagrees s tid (ok state) = is_mismatch state (task_snapshot tid s)

abbrev pub known_of : Ledger → List String → ℕ
known_of l ids = length (select (λ tid. is_known (ledger_state tid l)) ids)

abbrev pub unknown_of : Ledger → List String → ℕ
unknown_of l ids = length (select (λ tid. not (is_known (ledger_state tid l))) ids)

abbrev pub disagreeing : Store → Ledger → List String → ℕ
disagreeing s l ids = length (select (λ tid. disagrees s tid (ledger_state tid l)) ids)

-- What one task adds, by what the ledger says of it.
count_task_lem :
    (s : Store) (tid : String) (r : Result TaskState) (c : Report)
    → ((count_task s tid r c).recovered ≡ c.recovered + (if is_known r then 1 else 0))
      × ((count_task s tid r c).missing_in_ledger
          ≡ c.missing_in_ledger + (if is_known r then 0 else 1))
      × ((count_task s tid r c).status_mismatch
          ≡ c.status_mismatch + (if disagrees s tid r then 1 else 0))
      × ((count_task s tid r c).scanned ≡ c.scanned)
unfolding count_task
count_task_lem s tid (ok state) c = (ground arith, ground arith, ground arith, refl)
count_task_lem s tid (err x) c = (ground arith, ground arith, ground arith, refl)

-- What the loop has done after the tasks `ids`.
record IsScan (s : Store) (ids : List String) (w : Orchestrator) (c : Report)
    (p : Orchestrator × Report) : Type 0 where
  recovered : p.1.recovered ≡ c.recovered + known_of w.ledger ids
  missing : p.1.missing_in_ledger ≡ c.missing_in_ledger + unknown_of w.ledger ids
  mismatch : p.1.status_mismatch ≡ c.status_mismatch + disagreeing s w.ledger ids
  scanned : p.1.scanned ≡ c.scanned
  ledger : p.0.ledger ≡ w.ledger
  coherent : IsCoherent p.0

-- A read in a coherent orchestrator gives what the ledger says and changes nothing but the cache.
get_state_lem :
    (tid : String) (w : Orchestrator)
    → IsCoherent w
    → ((get_state tid w).1 ≡ ledger_state tid w.ledger)
      × ((get_state tid w).0.ledger ≡ w.ledger)
      × IsCoherent (get_state tid w).0
unfolding get_state
get_state_lem tid w h =
    (current_state_lem tid w h, ledger-current_state tid w, current_state-IsCoherent tid w h)

scan-IsScan :
    (s : Store) (ids : List String) (w : Orchestrator) (c : Report)
    → IsCoherent w
    → IsScan s ids w c (scan s ids w c)
unfolding scan
scan-IsScan s [] w c h = record {
  recovered = omega arith;
  missing = omega arith;
  mismatch = omega arith;
  scanned = refl;
  ledger = refl;
  coherent = h;
}
scan-IsScan s (tid ∷ ids) w c h =
    let (says, same, h') = get_state_lem tid w h in
    let (w', r) = get_state tid w in
    let (one, two, three, four) = count_task_lem s tid r c in
    let rest = scan-IsScan s ids w' (count_task s tid r c) h' in
    record {
      recovered = ground (arith, rest.recovered, one, says, ap (λ l. known_of l ids) same);
      missing = ground (arith, rest.missing, two, says, ap (λ l. unknown_of l ids) same);
      mismatch = ground (arith, rest.mismatch, three, says, ap (λ l. disagreeing s l ids) same);
      scanned = rest.scanned ∙ four;
      ledger = rest.ledger ∙ same;
      coherent = rest.coherent;
    }

known-unknown : (l : Ledger) (ids : List String) → known_of l ids + unknown_of l ids ≡ length ids
known-unknown l [] = omega arith
known-unknown l (tid ∷ ids) = ground (arith, known-unknown l ids)

-- With a coherent cache, the recovery scans the tasks in flight; `recovered` counts those of which the
-- ledger says a state, `missing_in_ledger` the others, and `status_mismatch` those whose status in the
-- store does not go with that state. The ledger stays and the cache stays coherent.
pub startup_exact :
    (s : Store) (limit : ℕ) (w : Orchestrator)
    → IsCoherent w
    → let ids = list_inflight_task_ids limit s in
      let (w', c) = recover_inflight_tasks s limit w in
      (c.scanned ≡ length ids)
      × (c.recovered ≡ known_of w.ledger ids)
      × (c.recovered + c.missing_in_ledger ≡ c.scanned)
      × (c.status_mismatch ≡ disagreeing s w.ledger ids)
      × (w'.ledger ≡ w.ledger)
      × IsCoherent w'
unfolding recover_inflight_tasks
startup_exact s limit w h =
    let ids = list_inflight_task_ids limit s in
    let none_yet : Report = record {
      scanned = length ids;
      recovered = 0;
      missing_in_ledger = 0;
      status_mismatch = 0;
    } in
    let p = scan-IsScan s ids w none_yet h in
    let all = known-unknown w.ledger ids in
    (
      p.scanned,
      omega (arith, p.recovered),
      omega (arith, p.recovered, p.missing, p.scanned, all),
      omega (arith, p.mismatch),
      p.ledger,
      p.coherent,
    )
