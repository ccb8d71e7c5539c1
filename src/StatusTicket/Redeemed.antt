-- ===== src/StatusTicket/Redeemed.antt =====
-- A status ticket is redeemed once, however it is looked at or taken.
use qwen.Prelude.{
  ℕ, ◌≡◌, refl, String, Bool, false, Option, none, some, [], ◌∷◌, inl, inr, arith, leb,
  if◌then◌else◌, str_eq, eq_refl, Bool-cases, length,
}
use qwen.Prelude.Dict.{get, remove, get-put_ne, get-remove}
use qwen.StatusTicket.{
  Tickets, max_tickets, purge_expired, pop_all, victims_of, evict_oldest, issue, peek, consume,
  if_accepted, consume_if, reset,
}

-- The ticket is not in the table.
abbrev IsGone : String → Tickets → Type 0
IsGone ticket tickets = get ticket tickets ≡ none

purge_expired-IsGone :
    (ticket : String) (now : ℕ) (tickets : Tickets)
    → IsGone ticket tickets
    → IsGone ticket (purge_expired now tickets)
unfolding get purge_expired
purge_expired-IsGone ticket now [] h = refl
purge_expired-IsGone ticket now ((k, entry) ∷ tickets) h =
    ground (arith, h, purge_expired-IsGone ticket now tickets)

pop_all-IsGone :
    (ticket : String) (victims tickets : Tickets)
    → IsGone ticket tickets
    → IsGone ticket (pop_all victims tickets)
unfolding pop_all
pop_all-IsGone ticket [] tickets h = h
pop_all-IsGone ticket ((k, entry) ∷ victims) tickets h =
    pop_all-IsGone ticket victims (remove k tickets)
      (ground (arith, h, get-remove k ticket tickets))

remove-IsGone :
    (ticket other : String) (tickets : Tickets)
    → IsGone ticket tickets
    → IsGone ticket (remove other tickets)
remove-IsGone ticket other tickets h = ground (arith, h, get-remove other ticket tickets)

issue-IsGone :
    (ticket other d a : String) (now now' : ℕ) (tickets : Tickets)
    → str_eq other ticket ≡ false
    → IsGone ticket tickets
    → IsGone ticket (issue other d a now now' tickets)
unfolding issue evict_oldest
issue-IsGone ticket other d a now now' tickets ne h =
    let kept = purge_expired now' tickets in
    let gone = purge_expired-IsGone ticket now' tickets h in
    rw
      (get-put_ne other ticket _
        (if leb max_tickets (length kept) then pop_all (victims_of kept) kept else kept) ne)
      (elim (Bool-cases (leb max_tickets (length kept))) [
        | inl e ↦ rw e (pop_all-IsGone ticket (victims_of kept) kept gone)
        | inr e ↦ rw e gone
      ])

peek-IsGone :
    (ticket other : String) (now : ℕ) (tickets : Tickets)
    → IsGone ticket tickets
    → IsGone ticket (peek other now tickets).0
unfolding peek
peek-IsGone ticket other now tickets h = elim (Bool-cases (str_eq other "")) [
  | inl e ↦ rw (e, peek) h
  | inr e ↦ rw (e, peek) (purge_expired-IsGone ticket now tickets h)
]

consume-IsGone :
    (ticket other : String) (now : ℕ) (tickets : Tickets)
    → IsGone ticket tickets
    → IsGone ticket (consume other now tickets).0
unfolding consume
consume-IsGone ticket other now tickets h = elim (Bool-cases (str_eq other "")) [
  | inl e ↦ rw (e, consume) h
  | inr e ↦
      rw (e, consume) (remove-IsGone ticket other _ (purge_expired-IsGone ticket now tickets h))
]

if_accepted-IsGone :
    (predicate : String → String → Bool) (ticket other : String) (kept : Tickets)
    (claims : Option (String × String))
    → IsGone ticket kept
    → IsGone ticket (if_accepted predicate other kept claims).0
if_accepted-IsGone predicate ticket other kept none h = h
if_accepted-IsGone predicate ticket other kept (some (d, a)) h = elim (Bool-cases (predicate d a)) [
  | inl e ↦ rw e (remove-IsGone ticket other kept h)
  | inr e ↦ rw e h
]

consume_if-IsGone :
    (predicate : String → String → Bool) (ticket other : String) (now : ℕ) (tickets : Tickets)
    → IsGone ticket tickets
    → IsGone ticket (consume_if predicate other now tickets).0
unfolding consume_if
consume_if-IsGone predicate ticket other now tickets h = elim (Bool-cases (str_eq other "")) [
  | inl e ↦ rw (e, consume_if) h
  | inr e ↦
      rw (e, consume_if)
        (if_accepted-IsGone predicate ticket other _ _ (purge_expired-IsGone ticket now tickets h))
]

-- What happens to the tickets while `ticket` is not issued again.
pub data Run (ticket : String) (ts : Tickets) : Tickets → Type 0 where
  start : Run ticket ts ts
  issued :
      {us : Tickets} (other d a : String) (now now' : ℕ)
      → str_eq other ticket ≡ false
      → Run ticket ts us
      → Run ticket ts (issue other d a now now' us)
  peeked :
      {us : Tickets} (other : String) (now : ℕ)
      → Run ticket ts us
      → Run ticket ts (peek other now us).0
  consumed :
      {us : Tickets} (other : String) (now : ℕ)
      → Run ticket ts us
      → Run ticket ts (consume other now us).0
  tried :
      {us : Tickets} (predicate : String → String → Bool) (other : String) (now : ℕ)
      → Run ticket ts us
      → Run ticket ts (consume_if predicate other now us).0
  cleared : {us : Tickets} → Run ticket ts us → Run ticket ts (reset us)

Run-IsGone :
    (ticket : String) {ts us : Tickets} → Run ticket ts us → IsGone ticket ts → IsGone ticket us
Run-IsGone ticket start h = h
Run-IsGone ticket (issued {us} other d a now now' ne run) h =
    issue-IsGone ticket other d a now now' us ne (Run-IsGone ticket run h)
Run-IsGone ticket (peeked {us} other now run) h =
    peek-IsGone ticket other now us (Run-IsGone ticket run h)
Run-IsGone ticket (consumed {us} other now run) h =
    consume-IsGone ticket other now us (Run-IsGone ticket run h)
Run-IsGone ticket (tried {us} predicate other now run) h =
    consume_if-IsGone predicate ticket other now us (Run-IsGone ticket run h)
Run-IsGone ticket (cleared run) h = unfold reset get in refl

-- A call that answers with claims has removed the ticket.
if_accepted-taken :
    (predicate : String → String → Bool) (ticket : String) (kept : Tickets)
    (found : Option (String × String)) (claims : String × String)
    → (if_accepted predicate ticket kept found).1 ≡ some claims
    → IsGone ticket (if_accepted predicate ticket kept found).0
if_accepted-taken predicate ticket kept none claims h = absurd (ground (arith, h))
if_accepted-taken predicate ticket kept (some (d, a)) claims h = elim (Bool-cases (predicate d a)) [
  | inl e ↦ rw e (ground (arith, get-remove ticket ticket kept, eq_refl ticket))
  | inr e ↦ absurd (ground (arith, h, e))
]

consume_if-taken :
    (predicate : String → String → Bool) (ticket : String) (now : ℕ) (tickets : Tickets)
    (claims : String × String)
    → (consume_if predicate ticket now tickets).1 ≡ some claims
    → IsGone ticket (consume_if predicate ticket now tickets).0
unfolding consume_if
consume_if-taken predicate ticket now tickets claims = elim (Bool-cases (str_eq ticket "")) [
  | inl e ↦ rw (e, consume_if) λ h. absurd (ground (arith, h))
  | inr e ↦ rw (e, consume_if) λ h. if_accepted-taken predicate ticket _ _ claims h
]

-- The three calls answer nothing for the ticket; `predicate` is the one that `consume_if` is given.
abbrev pub IsRefused : (String → String → Bool) → String → ℕ → Tickets → Type 0
IsRefused predicate ticket now tickets =
    ((peek ticket now tickets).1 ≡ none)
    × ((consume ticket now tickets).1 ≡ none)
    × ((consume_if predicate ticket now tickets).1 ≡ none)

gone-IsRefused :
    (predicate : String → String → Bool) (ticket : String) (now : ℕ) (tickets : Tickets)
    → IsGone ticket tickets
    → IsRefused predicate ticket now tickets
unfolding peek consume consume_if
gone-IsRefused predicate ticket now tickets h =
    let gone = purge_expired-IsGone ticket now tickets h in
    elim (Bool-cases (str_eq ticket "")) [
      | inl e ↦ (rw (e, peek) refl, rw (e, consume) refl, rw (e, consume_if) refl)
      | inr e ↦ (rw (e, peek, gone) refl, rw (e, consume, gone) refl, rw (e, consume_if, gone) refl)
    ]

-- Once `consume_if` has answered with a device and an account, no call takes or shows the ticket again
-- while it is not issued anew: whatever other tickets are issued, looked at, consumed or tried since,
-- `peek`, `consume` and `consume_if` with any predicate answer nothing at any time.
pub redeemed_once :
    (predicate other : String → String → Bool) (ticket : String) (now later : ℕ) (ts us : Tickets)
    (claims : String × String)
    → (consume_if predicate ticket now ts).1 ≡ some claims
    → Run ticket (consume_if predicate ticket now ts).0 us
    → IsRefused other ticket later us
redeemed_once predicate other ticket now later ts us claims taken run =
    gone-IsRefused other ticket later us
      (Run-IsGone ticket run (consume_if-taken predicate ticket now ts claims taken))
