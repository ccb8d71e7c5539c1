-- ===== src/StatusTicket.antt =====
-- app_status_ws_ticket.py: one-time tickets of the status websocket, which carry a device and an account
-- and can be looked at before they are taken. The clock and the random text of a new ticket are
-- arguments; times are whole microseconds.
pub mod Redeemed
mod Tests
use qwen.Prelude.{
  ℕ, ◌+◌, ◌/◌, String, Bool, true, false, Option, none, some, List, [], ◌∷◌, ltb, leb,
  if◌then◌else◌, str_eq, length, take, select,
}
use qwen.Prelude.Dict.{Dict, get, put, remove}
use qwen.Prelude.Sort.{sort}

pub record AppStatusTicket : Type 0 where
  pub device_id : String
  pub account_id : String
  pub expires_at : ℕ

-- `_tickets`
abbrev pub Tickets : Type 0
Tickets = Dict AppStatusTicket

abbrev pub ttl : ℕ
ttl = 30000000

abbrev pub max_tickets : ℕ
max_tickets = 10000

unfoldable pub purge_expired : ℕ → Tickets → Tickets
purge_expired now tickets =
    select (λ (item : String × AppStatusTicket). ltb now item.1.expires_at) tickets

unfoldable pub pop_all : Tickets → Tickets → Tickets
pop_all [] tickets = tickets
pop_all ((ticket, entry) ∷ victims) tickets = pop_all victims (remove ticket tickets)

-- The victims of `_evict_oldest`: a quarter of the tickets, and at least one.
unfoldable pub victims_of : Tickets → Tickets
victims_of tickets =
    let quarter = length tickets / 4 in
    take (if ltb quarter 1 then 1 else quarter)
      (sort (λ (a b : String × AppStatusTicket). leb a.1.expires_at b.1.expires_at) tickets)

unfoldable pub evict_oldest : Tickets → Tickets
evict_oldest tickets = pop_all (victims_of tickets) tickets

-- The clock is read before the lock is taken and again under it.
unfoldable pub issue : String → String → String → ℕ → ℕ → Tickets → Tickets
issue ticket device_id account_id now now' tickets =
    let kept = purge_expired now' tickets in
    put ticket (record { device_id = device_id; account_id = account_id; expires_at = now + ttl })
      (if leb max_tickets (length kept) then evict_oldest kept else kept)

-- What a call returns for the entry that it has found.
abbrev pub claims_of : ℕ → Option AppStatusTicket → Option (String × String)
claims_of now none = none
claims_of now (some entry) =
    if ltb entry.expires_at now then none else some (entry.device_id, entry.account_id)

unfoldable pub peek : String → ℕ → Tickets → Tickets × Option (String × String)
peek ticket now tickets =
    if str_eq ticket ""
    then (tickets, none)
    else let kept = purge_expired now tickets in (kept, claims_of now (get ticket kept))

unfoldable pub consume : String → ℕ → Tickets → Tickets × Option (String × String)
consume ticket now tickets =
    if str_eq ticket ""
    then (tickets, none)
    else let kept = purge_expired now tickets in
      (remove ticket kept, claims_of now (get ticket kept))

abbrev pub if_accepted :
    (String → String → Bool)
    → String
    → Tickets
    → Option (String × String)
    → Tickets × Option (String × String)
if_accepted predicate ticket kept none = (kept, none)
if_accepted predicate ticket kept (some (device_id, account_id)) =
    if predicate device_id account_id
    then (remove ticket kept, some (device_id, account_id))
    else (kept, none)

unfoldable pub consume_if :
    (String → String → Bool) → String → ℕ → Tickets → Tickets × Option (String × String)
consume_if predicate ticket now tickets =
    if str_eq ticket ""
    then (tickets, none)
    else let kept = purge_expired now tickets in
      if_accepted predicate ticket kept (claims_of now (get ticket kept))

unfoldable pub reset : Tickets → Tickets
reset tickets = []
