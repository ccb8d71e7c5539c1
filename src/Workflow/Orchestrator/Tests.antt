-- ===== src/Workflow/Orchestrator/Tests.antt =====
-- One task, registered and advanced.
use qwen.Prelude.{subst, some, ◌≡◌, ◌≢◌, refl, true, [], ◌∷◌}
use qwen.Prelude.Dict.{get, put, member}
use qwen.Prelude.Sort.{sort, insert, text_leb}
use qwen.Ledger.{record_event, events_for_task}
use qwen.Ledger.Projection.{
  sorted_events, rebuild_state, view_events, view_event, status_after_event,
}
use qwen.Workflow.State.{created, planned, dispatched, completed, is_allowed, parse_state, value}
use qwen.Workflow.Lock.{is_held}
use qwen.Workflow.Orchestrator.{
  Orchestrator, ok, err, invalid_transition, register, advance, current_state, get_state, cached,
  replayed_state, status_to_task_state, last_state,
}
use qwen.Workflow.Orchestrator.Replay.{IsNew}
use qwen.Workflow.Orchestrator.Coherence.{
  IsCoherent, ledger_state, current_state_lem, current_state-IsCoherent,
}
use qwen.Workflow.Orchestrator.Body.{reached, event_of_advance}
use qwen.Workflow.Orchestrator.Advance.{advance_exact, advance_refused}
use qwen.Workflow.Orchestrator.Register.{created_event}
use qwen.Workflow.Orchestrator.Traces.{init, here, next, registered, advanced, never_completed}

init-IsCoherent : IsCoherent init
unfolding get
init-IsCoherent = record { seen = λ tid n s q. cc; said = λ tid n s q. cc }

abbrev one_task : Orchestrator
one_task = (register "task-1" "plotter" "" "ledger-1" (2 ∷ []) init).0

-- The same orchestrator, evaluated.
abbrev one_task' : Orchestrator
one_task' = record {
  ledger = record {
    events = created_event "task-1" "plotter" "" "ledger-1" (2 ∷ []) ∷ [];
    event_ids = "ledger-1" ∷ [];
  };
  cache = [];
  locks = [];
}

says_created : ledger_state "task-1" one_task'.ledger ≡ ok created
unfolding ledger_state replayed_state status_to_task_state events_for_task sorted_events
    rebuild_state view_events view_event status_after_event last_state sort insert text_leb
    parse_state value
says_created = refl

one_task'-IsCoherent : IsCoherent one_task'
unfolding get
one_task'-IsCoherent = record { seen = λ tid n s q. cc; said = λ tid n s q. cc }

planned-IsNew :
    IsNew (event_of_advance "task-1" planned "ledger-2" (3 ∷ []) one_task'.ledger) one_task'.ledger
unfolding member
planned-IsNew = record { id_given = refl; task_given = refl; id_new = refl }

advance_exact_example :
    let (w', r) = advance "task-1" planned "ledger-2" (3 ∷ []) one_task' in
    (r ≡ ok (reached created planned))
    × (w'.ledger
        ≡ (record_event
            (event_of_advance "task-1" planned "ledger-2" (3 ∷ []) one_task'.ledger)
            one_task'.ledger).0)
    × (is_held "task-1" w'.locks ≡ is_held "task-1" one_task'.locks)
    × IsCoherent w'
unfolding get is_allowed events_for_task text_leb
advance_exact_example =
    advance_exact "task-1" "task-1" created planned "ledger-2" (3 ∷ []) one_task'
      one_task'-IsCoherent refl says_created refl planned-IsNew (refl, tt)

advance_refused_example :
    let (w', r) = advance "task-1" dispatched "ledger-2" (3 ∷ []) one_task' in
    (r ≡ err (invalid_transition created dispatched))
    × (w'.ledger ≡ one_task'.ledger)
    × (is_held "task-1" w'.locks ≡ is_held "task-1" one_task'.locks)
    × IsCoherent w'
unfolding get is_allowed
advance_refused_example =
    advance_refused "task-1" "task-1" created dispatched "ledger-2" (3 ∷ []) one_task'
      one_task'-IsCoherent refl says_created refl

abbrev held_task : Orchestrator
held_task = record one_task' { locks = ("task-1", true) ∷ [] }

-- The orchestrator after the state was read: it is in the cache, with the number of events seen.
abbrev read_once : Orchestrator
read_once = record one_task' { cache = ("task-1", (1, created)) ∷ [] }

reads_once : (current_state "task-1" one_task').0 ≡ read_once
unfolding current_state ledger_state replayed_state status_to_task_state events_for_task
    sorted_events rebuild_state view_events view_event status_after_event last_state sort insert
    text_leb parse_state value get put
reads_once = refl

read_once-IsCoherent : IsCoherent read_once
read_once-IsCoherent =
    subst IsCoherent reads_once (current_state-IsCoherent "task-1" one_task' one_task'-IsCoherent)

-- The state is the one of the cache.
from_cache : cached 1 (get "task-1" read_once.cache) ≡ some created
unfolding get
from_cache = refl

current_state_lem_example :
    (current_state "task-1" read_once).1 ≡ ledger_state "task-1" read_once.ledger
current_state_lem_example = current_state_lem "task-1" read_once read_once-IsCoherent

never_completed_example :
    (get_state "task-1" (advance "task-1" planned "ledger-2" (3 ∷ []) one_task).0).1 ≢ ok completed
never_completed_example =
    never_completed "task-1" (advance "task-1" planned "ledger-2" (3 ∷ []) one_task).0 (
      next (next here (registered "task-1" "plotter" "" "ledger-1" (2 ∷ [])))
        (advanced "task-1" planned "ledger-2" (3 ∷ [])))
