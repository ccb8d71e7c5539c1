-- ===== src/Ticket.antt =====
-- ws_ticket.py: one-time tickets for websocket connections. The clock and the random text of a new
-- ticket are arguments; times are whole microseconds.
pub mod Once
mod Tests
use qwen.Prelude.{
  ℕ, ◌+◌, ◌/◌, String, Bool, true, false, Option, none, some, List, [], ◌∷◌, ltb, leb,
  if◌then◌else◌, str_eq, length, take, select,
}
use qwen.Prelude.Dict.{Dict, get, put, remove}
use qwen.Prelude.Sort.{sort}

abbrev pub ttl : ℕ
ttl = 30000000

abbrev pub max_tickets : ℕ
max_tickets = 10000

-- `_tickets`: the time at which each ticket expires.
abbrev pub Tickets : Type 0
Tickets = Dict ℕ

-- `_purge_expired`; a key has one entry, so its `del` drops that entry.
pub purge_expired : ℕ → Tickets → Tickets
purge_expired now tickets = select (λ (item : String × ℕ). ltb now item.1) tickets

pop_all : List (String × ℕ) → Tickets → Tickets
pop_all [] tickets = tickets
pop_all ((ticket, at) ∷ victims) tickets = pop_all victims (remove ticket tickets)

-- The victims of `_evict_oldest`: a quarter of the tickets, and at least one.
victims_of : Tickets → List (String × ℕ)
victims_of tickets =
    let quarter = length tickets / 4 in
    take (if ltb quarter 1 then 1 else quarter) (sort (λ (a b : String × ℕ). leb a.1 b.1) tickets)

pub evict_oldest : Tickets → Tickets
unfolding pop_all victims_of
evict_oldest tickets = pop_all (victims_of tickets) tickets

-- The clock is read before the lock is taken and again under it.
pub issue : String → ℕ → ℕ → Tickets → Tickets
issue ticket now now' tickets =
    let kept = purge_expired now' tickets in
    put ticket (now + ttl) (if leb max_tickets (length kept) then evict_oldest kept else kept)

is_valid : ℕ → Option ℕ → Bool
is_valid now none = false
is_valid now (some at) = leb now at

pub consume : String → ℕ → Tickets → Tickets × Bool
unfolding is_valid
consume ticket now tickets =
    if str_eq ticket ""
    then (tickets, false)
    else (purge_expired now (remove ticket tickets), is_valid now (get ticket tickets))

pub reset : Tickets → Tickets
reset tickets = []
