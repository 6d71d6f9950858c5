-- ===== src/Network/Server/Table.antt =====
-- How the steps of the server change the number of places that hold a client.
use akkon.Base.{
  ℕ, ◌+◌, ◌≤◌, ◌≡◌, refl, Bool, true, false, ◌&&◌, Option, none, some, List, [], ◌∷◌, ◌++◌, arith,
  drop, ap, sym, ◌∙◌, hit, Option-cases, Bool-cases, ==_iff, inl, inr, ◌==◌,
}
use akkon.Network.Server.{
  ActionType, close_client, enable_polling, ClientAction, PollFd, Task, same_fd, perform,
  perform_all, sweep, Event, idle, disconnected, received, receive, receive_clients, new_client,
}

abbrev pub count {ℓ} : {A : Type ℓ} → (A → Bool) → List A → ℕ
count test [] = 0
count test (x ∷ xs) = hit (test x) + count test xs

pub count-append {ℓ} :
    {A : Type ℓ} (test : A → Bool) (xs ys : List A)
    → count test (xs ++ ys) ≡ count test xs + count test ys
count-append test [] ys = omega arith
count-append test (x ∷ xs) ys = omega (arith, count-append test xs ys)

-- The entries of the poll table for a client, those of them that are polled, the actions posted for
-- it, its requests in the queue and those in the hands of a worker.
abbrev pub entries : ℕ → List PollFd → ℕ
entries d = count (λ p. same_fd p.fd d)

abbrev pub polled : ℕ → List PollFd → ℕ
polled d = count (λ p. same_fd p.fd d && p.polling)

abbrev pub posted : ℕ → List ClientAction → ℕ
posted d = count (λ a. a.fd == d)

abbrev pub queued : ℕ → List Task → ℕ
queued d = count (λ t. t.fd == d)

abbrev pub served : ℕ → List ℕ → ℕ
served d = count (λ f. f == d)

-- `poll` reports input only where it was asked to, and nothing for entries it was not given.
abbrev pub Reports : Event → Bool → Type 0
Reports idle polling = Unit
Reports disconnected polling = polling ≡ true
Reports (received bytes) polling = polling ≡ true

abbrev pub Answers : List PollFd → List Event → Type 0
Answers [] es = es ≡ []
Answers (p ∷ ps) [] = Unit
Answers (p ∷ ps) (e ∷ es) = Reports e p.polling × Answers ps es

same_fd-both : (x : Option ℕ) (a d : ℕ) → same_fd x a ≡ true → same_fd x d ≡ (a == d)
same_fd-both none a d h = ground arith
same_fd-both (some f) a d h = ground arith

-- An action for another client leaves the counts of this one alone.
perform_other :
    (a : ClientAction) (d : ℕ) (ps : List PollFd)
    → (a.fd == d) ≡ false
    → (entries d (perform a ps) ≡ entries d ps) × (polled d (perform a ps) ≡ polled d ps)
unfolding perform
perform_other a d [] h = (refl, refl)
perform_other a d (p ∷ ps) h = ground (arith, perform_other a d ps h, same_fd-both p.fd a.fd d)

perform_enable :
    (d : ℕ) (ps : List PollFd)
    → let a : ClientAction = record { fd = d; type = enable_polling } in
      (entries d (perform a ps) ≡ entries d ps) × (polled d (perform a ps) ≡ entries d ps)
unfolding perform
perform_enable d [] = (refl, refl)
perform_enable d (p ∷ ps) = ground (arith, perform_enable d ps)

perform_close :
    (d : ℕ) (ps : List PollFd)
    → let a : ClientAction = record { fd = d; type = close_client } in
      (entries d (perform a ps) ≡ 0) × (polled d (perform a ps) ≡ 0)
unfolding perform
perform_close d [] = (refl, refl)
perform_close d (p ∷ ps) = ground (arith, perform_close d ps)

pub sweep_counts :
    (d : ℕ) (ps : List PollFd)
    → (entries d (sweep ps) ≡ entries d ps) × (polled d (sweep ps) ≡ polled d ps)
unfolding sweep
sweep_counts d [] = (refl, refl)
sweep_counts d (p ∷ ps) = elim (Option-cases p.fd) [
  | inl e ↦ rw e (ground (arith, sweep_counts d ps))
  | inr (f, e) ↦ rw e (ground (arith, sweep_counts d ps))
]

perform_own :
    (type : ActionType) (d rest : ℕ) (ps : List PollFd)
    → let a : ClientAction = record { fd = d; type = type } in
      entries d ps ≡ polled d ps + (1 + rest)
      → entries d ps ≤ 1
      → (entries d (perform a ps) ≡ polled d (perform a ps) + rest) × (entries d (perform a ps) ≤ 1)
perform_own close_client d rest ps h one =
    (omega (arith, h, perform_close d ps), omega (arith, perform_close d ps))
perform_own enable_polling d rest ps h one =
    (omega (arith, h, one, perform_enable d ps), omega (arith, one, perform_enable d ps))

perform_one :
    (a : ClientAction) (d rest : ℕ) (ps : List PollFd)
    → entries d ps ≡ polled d ps + (hit (a.fd == d) + rest)
    → entries d ps ≤ 1
    → (entries d (perform a ps) ≡ polled d (perform a ps) + rest) × (entries d (perform a ps) ≤ 1)
perform_one a d rest ps h one = elim (Bool-cases (a.fd == d)) [
  | inl e ↦ rw ((==_iff a.fd d).0 e) (perform_own a.type d rest ps (ground (arith, h, e)) one)
  | inr e ↦
      (ground (arith, h, e, perform_other a d ps e), ground (arith, one, perform_other a d ps e))
]

-- A posted action that is carried out gives its place back: the client is polled again, or gone.
pub perform_all_places :
    (actions : List ClientAction) (d rest : ℕ) (ps : List PollFd)
    → entries d ps ≡ polled d ps + (posted d actions + rest)
    → entries d ps ≤ 1
    → (entries d (perform_all actions ps) ≡ polled d (perform_all actions ps) + rest)
      × (entries d (perform_all actions ps) ≤ 1)
unfolding perform_all
perform_all_places [] d rest ps h one = (omega (arith, h), one)
perform_all_places (a ∷ actions) d rest ps h one =
    let step = perform_one a d (posted d actions + rest) ps (omega (arith, h)) one in
    perform_all_places actions d rest (perform a ps) step.0 step.1

-- A request that is read moves from the poll table to the queue.
pub receive_places :
    (d : ℕ) (ps : List PollFd) (es : List Event)
    → Answers ps es
    → (entries d (receive ps es).0 + polled d ps
        ≡ entries d ps + polled d (receive ps es).0 + queued d (receive ps es).1)
      × (entries d (receive ps es).0 ≤ entries d ps)
unfolding receive
receive_places d [] es h = (omega arith, omega arith)
receive_places d (p ∷ ps) [] h = (omega arith, omega arith)
receive_places d (p ∷ ps) (idle ∷ es) h = ground (arith, receive_places d ps es h.1)
receive_places d (p ∷ ps) (disconnected ∷ es) h = ground (arith, receive_places d ps es h.1, h.0)
receive_places d (p ∷ ps) (received bytes ∷ es) h = elim (Option-cases p.fd) [
  | inl e ↦ rw e (ground (arith, receive_places d ps es h.1))
  | inr (f, e) ↦ rw e (ground (arith, receive_places d ps es h.1, h.0))
]

pub receive_clients_places :
    (d : ℕ) (ps : List PollFd) (es : List Event)
    → Answers (drop 1 ps) es
    → (entries d (receive_clients ps es).0 + polled d ps
        ≡ entries d ps + polled d (receive_clients ps es).0 + queued d (receive_clients ps es).1)
      × (entries d (receive_clients ps es).0 ≤ entries d ps)
unfolding receive_clients
receive_clients_places d [] es h = (omega arith, omega arith)
receive_clients_places d (p ∷ ps) es h =
    (omega (arith, receive_places d ps es h), omega (arith, receive_places d ps es h))

-- A new client is not in the reports yet.
Answers-append : (ps qs : List PollFd) (es : List Event) → Answers ps es → Answers (ps ++ qs) es
Answers-append [] [] es h = h
Answers-append [] (q ∷ qs) es h = rw h tt
Answers-append (p ∷ ps) qs [] h = tt
Answers-append (p ∷ ps) qs (e ∷ es) h = (h.0, Answers-append ps qs es h.1)

pub Answers-new_client :
    (accepted : Option ℕ) (ps : List PollFd) (es : List Event)
    → Answers (drop 1 ps) es
    → Answers (drop 1 (ps ++ new_client accepted)) es
Answers-new_client none [] es h = h
Answers-new_client (some f) [] es h = h
Answers-new_client accepted (p ∷ ps) es h = Answers-append ps (new_client accepted) es h

pub new_client_places :
    (f d rest : ℕ) (ps : List PollFd)
    → entries f ps ≡ 0
    → entries d ps ≡ polled d ps + rest
    → entries d ps ≤ 1
    → (entries d (ps ++ new_client (some f)) ≡ polled d (ps ++ new_client (some f)) + rest)
      × (entries d (ps ++ new_client (some f)) ≤ 1)
new_client_places f d rest ps fresh h one =
    let e = count-append (λ p. same_fd p.fd d) ps (new_client (some f)) in
    let p = count-append (λ p. same_fd p.fd d && p.polling) ps (new_client (some f)) in
    elim (Bool-cases (f == d)) [
      | inl same ↦
          let zero_d = ap (λ x. entries x ps) (sym ((==_iff f d).0 same)) ∙ fresh in
          (ground (arith, e, p, h, same), ground (arith, e, zero_d, same))
      | inr other ↦ (ground (arith, e, p, h, other), ground (arith, e, one, other))
    ]
