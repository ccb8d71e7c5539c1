-- ===== src/Ticket/Once.antt =====
-- A ticket is good once, and for its time.
use qwen.Prelude.{
  ℕ, ◌+◌, ◌≡◌, refl, ◌∙◌, String, false, none, List, [], ◌∷◌, inl, inr, arith, leb, if◌then◌else◌,
  str_eq, eq_refl, Bool-cases, length,
}
use qwen.Prelude.Dict.{get, remove, get-put_self, get-put_ne, get-remove}
use qwen.Ticket.{
  Tickets, ttl, max_tickets, purge_expired, pop_all, victims_of, evict_oldest, issue, consume,
  is_valid, reset,
}

get-purge_expired :
    (ticket : String) (now : ℕ) (tickets : Tickets)
    → get ticket tickets ≡ none
    → get ticket (purge_expired now tickets) ≡ none
unfolding get purge_expired
get-purge_expired ticket now [] h = refl
get-purge_expired ticket now ((k, at) ∷ tickets) h =
    ground (arith, h, get-purge_expired ticket now tickets)

get-pop_all :
    (ticket : String) (victims : List (String × ℕ)) (tickets : Tickets)
    → get ticket tickets ≡ none
    → get ticket (pop_all victims tickets) ≡ none
unfolding pop_all
get-pop_all ticket [] tickets h = h
get-pop_all ticket ((k, at) ∷ victims) tickets h =
    get-pop_all ticket victims (remove k tickets) (ground (arith, h, get-remove k ticket tickets))

get-evict_oldest :
    (ticket : String) (tickets : Tickets)
    → get ticket tickets ≡ none
    → get ticket (evict_oldest tickets) ≡ none
unfolding evict_oldest
get-evict_oldest ticket tickets h = get-pop_all ticket (victims_of tickets) tickets h

-- A ticket that is not there is not there after another one is issued.
get-issue :
    (ticket other : String) (now now' : ℕ) (tickets : Tickets)
    → str_eq other ticket ≡ false
    → get ticket tickets ≡ none
    → get ticket (issue other now now' tickets) ≡ none
unfolding issue
get-issue ticket other now now' tickets ne h =
    let kept = purge_expired now' tickets in
    let absent = get-purge_expired ticket now' tickets h in
    rw
      (get-put_ne other ticket (now + ttl)
        (if leb max_tickets (length kept) then evict_oldest kept else kept) ne)
      (elim (Bool-cases (leb max_tickets (length kept))) [
        | inl e ↦ rw e (get-evict_oldest ticket kept absent)
        | inr e ↦ rw e absent
      ])

get-consume :
    (ticket other : String) (now : ℕ) (tickets : Tickets)
    → get ticket tickets ≡ none
    → get ticket (consume other now tickets).0 ≡ none
unfolding consume
get-consume ticket other now tickets h = elim (Bool-cases (str_eq other "")) [
  | inl e ↦ rw (e, consume) h
  | inr e ↦
      rw (e, consume)
        (get-purge_expired ticket now (remove other tickets)
          (ground (arith, h, get-remove other ticket tickets)))
]

-- What happens to the tickets while `ticket` is not issued again.
pub data Step (ticket : String) (ts : Tickets) : Tickets → Type 0 where
  issued :
      (other : String) (now now' : ℕ)
      → str_eq other ticket ≡ false
      → Step ticket ts (issue other now now' ts)
  consumed : (other : String) (now : ℕ) → Step ticket ts (consume other now ts).0
  cleared : Step ticket ts (reset ts)

pub data Reach (ticket : String) (ts : Tickets) : Tickets → Type 0 where
  here : Reach ticket ts ts
  next : {us vs : Tickets} → Reach ticket ts us → Step ticket us vs → Reach ticket ts vs

Step-absent :
    {us vs : Tickets} (ticket : String)
    → Step ticket us vs
    → get ticket us ≡ none
    → get ticket vs ≡ none
Step-absent {us} ticket (issued other now now' ne) h = get-issue ticket other now now' us ne h
Step-absent {us} ticket (consumed other now) h = get-consume ticket other now us h
Step-absent ticket cleared h = unfold reset get in refl

Reach-absent :
    (ticket : String) {us vs : Tickets}
    → Reach ticket us vs
    → get ticket us ≡ none
    → get ticket vs ≡ none
Reach-absent ticket here h = h
Reach-absent ticket (next r st) h = Step-absent ticket st (Reach-absent ticket r h)

absent-after :
    (ticket : String) (now : ℕ) (tickets : Tickets)
    → str_eq ticket "" ≡ false
    → get ticket (consume ticket now tickets).0 ≡ none
unfolding consume
absent-after ticket now tickets named =
    rw (named, consume)
      (get-purge_expired ticket now (remove ticket tickets)
        (get-remove ticket ticket tickets ∙ rw eq_refl refl))

-- A ticket is consumed at most once: after it was presented, whether it was good or not, and whatever
-- other tickets are issued and consumed since, it is refused until it is issued again.
pub consume_once :
    (ticket : String) (now later : ℕ) (ts us : Tickets)
    → Reach ticket (consume ticket now ts).0 us
    → (consume ticket later us).1 ≡ false
unfolding consume
consume_once ticket now later ts us r = elim (Bool-cases (str_eq ticket "")) [
  | inl e ↦ rw (e, consume) refl
  | inr e ↦
      rw (e, consume, Reach-absent ticket r (absent-after ticket now ts e))
        (unfold is_valid in refl)
]

-- A ticket that is presented next is good up to `ttl` after the time at which it was issued, and not
-- later, however many tickets there are.
pub consume-issue :
    (ticket : String) (now now' later : ℕ) (ts : Tickets)
    → str_eq ticket "" ≡ false
    → (consume ticket later (issue ticket now now' ts)).1 ≡ leb later (now + ttl)
unfolding consume issue
consume-issue ticket now now' later ts named =
    rw (named, consume, issue, get-put_self) (unfold is_valid in refl)
