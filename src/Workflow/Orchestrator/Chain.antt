-- ===== src/Workflow/Orchestrator/Chain.antt =====
-- A sequence of transitions of one task, with stamps that are new and in the order of their times.
use qwen.Prelude.{
  ℕ, String, ◌≡◌, refl, ap, ◌∙◌, true, false, List, [], ◌∷◌, ◌++◌, arith, ◌||◌, str_eq, eq_refl,
  All, All-append, All-imp,
}
use qwen.Prelude.Dict.{member}
use qwen.Prelude.Sort.{text_leb, text_leb_refl, text_leb_trans}
use qwen.Ledger.{LedgerEvent, Ledger, record_event, events_for_task}
use qwen.Workflow.State.{TaskState, created, is_allowed}
use qwen.Workflow.Lock.{is_held}
use qwen.Workflow.Orchestrator.{Orchestrator, Result, ok, register, advance}
use qwen.Workflow.Orchestrator.Replay.{IsNew, IsLatest, record_event_new, events_for_task-append}
use qwen.Workflow.Orchestrator.Coherence.{IsCoherent, ledger_state}
use qwen.Workflow.Orchestrator.Body.{reached, event_of_advance, ledger_state-advance}
use qwen.Workflow.Orchestrator.Advance.{advance_exact}
use qwen.Workflow.Orchestrator.Register.{created_event, register_first, ledger_state-created}

-- The id and the time of an event to come.
pub record Stamp : Type 0 where
  pub event_id : String
  pub now : List ℕ

-- The stamps are given, differ from each other and from the ledger's ids, and their times do not go
-- back from `t` on.
abbrev pub AreFresh : List ℕ → List Stamp → Ledger → Type 0
AreFresh t [] l = Unit
AreFresh t (stamp ∷ stamps) l =
    (str_eq stamp.event_id "" ≡ false)
    × (member stamp.event_id l.event_ids ≡ false)
    × (text_leb t stamp.now ≡ true)
    × All (λ s. str_eq stamp.event_id s.event_id ≡ false) stamps
    × AreFresh stamp.now stamps l

-- An orchestrator that can take the task on: the ledger says the state `s` of it, with no event of it
-- after `t`.
pub record Stands (tid : String) (s : TaskState) (t : List ℕ) (w : Orchestrator) : Type 0 where
  pub coherent : IsCoherent w
  pub free : is_held tid w.locks ≡ false
  pub says : ledger_state tid w.ledger ≡ ok s
  pub until : All (λ e. text_leb e.created_at t ≡ true) (events_for_task tid w.ledger)

member-append :
    (k : String) (js : List String) (j : String)
    → member k (js ++ j ∷ []) ≡ (member k js || str_eq j k)
unfolding member
member-append k [] j = ground arith
member-append k (i ∷ js) j = ground (arith, member-append k js j)

AreFresh-append :
    (t : List ℕ) (stamps : List Stamp) (e : LedgerEvent) (l : Ledger)
    → IsNew e l
    → All (λ s. str_eq e.event_id s.event_id ≡ false) stamps
    → AreFresh t stamps l
    → AreFresh t stamps (record_event e l).0
AreFresh-append t [] e l new differ fresh = tt
AreFresh-append t (stamp ∷ stamps) e l new differ fresh = (
  fresh.0,
  rw (record_event_new e l new)
      (ground (arith, fresh.1, differ.0, member-append stamp.event_id l.event_ids e.event_id)),
  fresh.2,
  fresh.3,
  AreFresh-append stamp.now stamps e l new differ.1 fresh.4,
)

latest :
    (tid : String) (t now : List ℕ) (es : List LedgerEvent)
    → text_leb t now ≡ true
    → All (λ e. text_leb e.created_at t ≡ true) es
    → All (λ e. text_leb e.created_at now ≡ true) es
latest tid t now es h = All-imp es (λ e k. text_leb_trans e.created_at t now k h)

until-append :
    (tid : String) (e : LedgerEvent) (t : List ℕ) (l : Ledger)
    → IsNew e l
    → str_eq e.task_id tid ≡ true
    → text_leb t e.created_at ≡ true
    → All (λ x. text_leb x.created_at t ≡ true) (events_for_task tid l)
    → All
        (λ x. text_leb x.created_at e.created_at ≡ true)
        (events_for_task tid (record_event e l).0)
until-append tid e t l new mine later until =
    rw (events_for_task-append tid e l new, mine)
      (All-append (λ (x : LedgerEvent). text_leb x.created_at e.created_at ≡ true)
        (events_for_task tid l) (e ∷ [])
        (latest tid t e.created_at (events_for_task tid l) later until)
        (text_leb_refl e.created_at, tt))

-- What is known after a transition with the stamp `st`: it has led to `s`, and the other stamps serve
-- the next ones.
abbrev pub Led : String → TaskState → Stamp → List Stamp → Orchestrator × Result TaskState → Type 0
Led tid s st rest p = (p.1 ≡ ok s) × Stands tid s st.now p.0 × AreFresh st.now rest p.0.ledger

module _ (tid : String) (named : str_eq tid "" ≡ false) (st : Stamp) (rest : List Stamp)
    (t : List ℕ) (w : Orchestrator) where
  Led-extended :
      (s : TaskState) (e : LedgerEvent) (p : Orchestrator × Result TaskState)
      → (str_eq e.task_id tid ≡ true)
      → (e.event_id ≡ st.event_id)
      → (e.created_at ≡ st.now)
      → IsNew e w.ledger
      → AreFresh t (st ∷ rest) w.ledger
      → All (λ x. text_leb x.created_at t ≡ true) (events_for_task tid w.ledger)
      → ledger_state tid (record_event e w.ledger).0 ≡ ok s
      → is_held tid w.locks ≡ false
      → (p.1 ≡ ok s)
        × (p.0.ledger ≡ (record_event e w.ledger).0)
        × (is_held tid p.0.locks ≡ is_held tid w.locks)
        × IsCoherent p.0
      → Led tid s st rest p
  Led-extended s e p mine id at new fresh until says free out =
      let l = (record_event e w.ledger).0 in
      (
        out.0,
        record {
          coherent = out.3;
          free = out.2 ∙ free;
          says = rw out.1 says;
          until = rw (out.1, ← at) (until-append tid e t w.ledger new mine (rw at fresh.2) until);
        },
        rw out.1 (AreFresh-append st.now rest e w.ledger new (rw id fresh.3) fresh.4),
      )

  pub advance-Led :
      (current target : TaskState)
      → Stands tid current t w
      → is_allowed current target ≡ true
      → reached current target ≡ target
      → AreFresh t (st ∷ rest) w.ledger
      → Led tid target st rest (advance tid target st.event_id st.now w)
  advance-Led current target stands may reaches fresh =
      let e = event_of_advance tid target st.event_id st.now w.ledger in
      let new : IsNew e w.ledger = record {
        id_given = fresh.0;
        task_given = named;
        id_new = fresh.1;
      } in
      let last : IsLatest e w.ledger =
        latest tid t st.now (events_for_task tid w.ledger) fresh.2 stands.until in
      let out =
        advance_exact tid tid current target st.event_id st.now w stands.coherent stands.free
          stands.says may new last in
      Led-extended target e (advance tid target st.event_id st.now w) (eq_refl tid) refl refl new
        fresh stands.until
        (ledger_state-advance tid current target st.event_id st.now w.ledger new last stands.says
          ∙ ap ok reaches)
        stands.free (out.0 ∙ ap ok reaches, out.1, out.2, out.3)

  pub register-Led :
      (device_id task_device : String)
      → IsCoherent w
      → is_held tid w.locks ≡ false
      → events_for_task tid w.ledger ≡ []
      → AreFresh t (st ∷ rest) w.ledger
      → Led tid created st rest (register tid device_id task_device st.event_id st.now w)
  register-Led device_id task_device c free none_yet fresh =
      let e = created_event tid device_id task_device st.event_id st.now in
      let new : IsNew e w.ledger = record {
        id_given = fresh.0;
        task_given = named;
        id_new = fresh.1;
      } in
      Led-extended created e (register tid device_id task_device st.event_id st.now w) (eq_refl tid)
        refl refl new fresh (rw none_yet tt)
        (ledger_state-created tid device_id task_device st.event_id st.now w.ledger new none_yet)
        free (register_first tid tid device_id task_device st.event_id st.now w c free none_yet new)
