-- ===== src/Ticket/Tests.antt =====
-- One ticket, presented twice.
use qwen.Prelude.{◌≡◌, refl, true, false, [], ◌∷◌}
use qwen.Prelude.Dict.{get, remove}
use qwen.Ticket.{Tickets, consume, purge_expired}

abbrev one_ticket : Tickets
one_ticket = ("t", 100) ∷ []

first_accepted : (consume "t" 50 one_ticket).1 ≡ true
unfolding consume get
first_accepted = refl

second_refused : (consume "t" 70 (consume "t" 50 one_ticket).0).1 ≡ false
unfolding consume get remove purge_expired
second_refused = refl
