-- ===== src/StatusTicket/Tests.antt =====
-- Status tickets: looked at, refused to another device, taken, and presented again.
use qwen.Prelude.{◌≡◌, refl, String, Bool, none, some, str_eq, []}
use qwen.Prelude.Dict.{get, put}
use qwen.StatusTicket.{Tickets, purge_expired, issue, peek, consume_if}
use qwen.StatusTicket.Redeemed.{IsRefused, start, issued, peeked, redeemed_once}

abbrev for_device : String → String → String → Bool
for_device wanted device_id account_id = str_eq device_id wanted

abbrev one_ticket : Tickets
one_ticket = issue "t" "d1" "a1" 50 51 []

peek_answers : (peek "t" 70 one_ticket).1 ≡ some ("d1", "a1")
unfolding issue peek get put purge_expired
peek_answers = refl

other_device : (consume_if (for_device "d2") "t" 70 one_ticket).1 ≡ none
unfolding issue consume_if get put purge_expired
other_device = refl

own_device : (consume_if (for_device "d1") "t" 70 one_ticket).1 ≡ some ("d1", "a1")
unfolding issue consume_if get put purge_expired
own_device = refl

redeemed_once_example :
    IsRefused
      (for_device "d1")
      "t"
      90
      (peek "t" 80 (issue "u" "d1" "a1" 75 76 (consume_if (for_device "d1") "t" 70 one_ticket).0)).0
redeemed_once_example =
    redeemed_once (for_device "d1") (for_device "d1") "t" 70 90 one_ticket _ ("d1", "a1") own_device
      (peeked "t" 80 (issued "u" "d1" "a1" 75 76 refl start))
