-- ===== src/Network/Server/Places.antt =====
-- Where a client is while the server runs: polled, waiting in the queue, with a worker, or named in
-- a posted action.
use mathlib.Core.Option.{some-injective}
use mathlib.Core.Path.{subst}
use akkon.Base.{
  ℕ, ◌+◌, ◌≤◌, ◌≡◌, refl, false, Option, none, some, List, [], ◌∷◌, ◌++◌, arith, drop, ap, ◌==◌,
  ◌&&◌,
}
use akkon.Security.{LockdownState}
use akkon.Network.Server.{
  ActionType, Server, Task, start, post, is_immediate, on_lockdown, settle, Event, Polled, failed,
  timed_out, events_of, new_client, serve, iterate, take_front, take_task, perform_all,
  receive_clients, same_fd,
}
use akkon.Network.Server.Table.{
  entries, polled, posted, queued, served, Answers, count-append, sweep_counts, perform_all_places,
  receive_clients_places, Answers-new_client, new_client_places,
}

-- What the operating system promises of the answer: input is reported for clients that are polled,
-- and the descriptor of a new client is not in use.
abbrev pub IsAnswer : Polled → Server → Type 0
IsAnswer failed s = Unit
IsAnswer timed_out s = Unit
IsAnswer (events_of none es) s = Answers (drop 1 s.fds) es
IsAnswer (events_of (some f) es) s = Answers (drop 1 s.fds) es × (entries f s.fds ≡ 0)

-- A round of the loop with no IMMEDIATE lockdown, a worker that takes a request, and a handler that
-- ends with the action it posts for its client.
pub data Step (s : Server) : Server → Type 0 where
  rounds :
      (current : LockdownState) (answer : Polled)
      → is_immediate current ≡ false
      → IsAnswer answer (settle current s)
      → Step s (iterate current answer s).1
  takes : {t : Server} → take_task s ≡ some t → Step s t
  finishes :
      (before after : List ℕ) (fd : ℕ) (type : ActionType)
      → s.handling ≡ before ++ fd ∷ after
      → Step s (post fd type (record s { handling = before ++ after }))

pub data Reach (s : Server) : Server → Type 0 where
  here : Reach s s
  next : {t u : Server} → Reach s t → Step t u → Reach s u

-- The places outside the poll table that hold a client.
abbrev pub away : ℕ → Server → ℕ
away d s = posted d s.pending_actions + queued d s.tasks + served d s.handling

pub record OnePlace (d : ℕ) (s : Server) : Type 0 where
  pub balance : entries d s.fds ≡ polled d s.fds + away d s
  pub single : entries d s.fds ≤ 1

settle-OnePlace :
    (d : ℕ) (current : LockdownState) (s : Server)
    → is_immediate current ≡ false
    → OnePlace d s
    → OnePlace d (settle current s)
unfolding settle on_lockdown
settle-OnePlace d current s calm v =
    let done =
      perform_all_places s.pending_actions d (queued d s.tasks + served d s.handling) s.fds
        (omega (arith, v.balance)) v.single in
    let swept = sweep_counts d (perform_all s.pending_actions s.fds) in
    rw calm (record { balance = omega (arith, done, swept); single = omega (arith, done, swept) })

-- The client, new or not, has its place in the table that `recv` is called on.
arrive :
    (d rest : ℕ) (accepted : Option ℕ) (es : List Event) (s : Server)
    → IsAnswer (events_of accepted es) s
    → entries d s.fds ≡ polled d s.fds + rest
    → entries d s.fds ≤ 1
    → Answers (drop 1 (s.fds ++ new_client accepted)) es
      × (entries d (s.fds ++ new_client accepted) ≡ polled d (s.fds ++ new_client accepted) + rest)
      × (entries d (s.fds ++ new_client accepted) ≤ 1)
arrive d rest none es s h balance single = (
  Answers-new_client none s.fds es h,
  omega (
    arith,
    balance,
    count-append (λ p. same_fd p.fd d) s.fds [],
    count-append (λ p. same_fd p.fd d && p.polling) s.fds [],
  ),
  omega (arith, single, count-append (λ p. same_fd p.fd d) s.fds []),
)
arrive d rest (some f) es s h balance single =
    let places = new_client_places f d rest s.fds h.1 balance single in
    (Answers-new_client (some f) s.fds es h.0, places.0, places.1)

serve-OnePlace :
    (d : ℕ) (accepted : Option ℕ) (es : List Event) (s : Server)
    → IsAnswer (events_of accepted es) s
    → OnePlace d s
    → OnePlace d (serve accepted es s)
unfolding serve
serve-OnePlace d accepted es s h v =
    let fds = s.fds ++ new_client accepted in
    let ready = arrive d (away d s) accepted es s h v.balance v.single in
    let read = receive_clients_places d fds es ready.0 in
    let swept = sweep_counts d (receive_clients fds es).0 in
    let grown = count-append (λ t. t.fd == d) s.tasks (receive_clients fds es).1 in
    record {
      balance = omega (arith, ready.1, read, swept, grown);
      single = omega (arith, ready.1, read, swept);
    }

iterate-OnePlace :
    (d : ℕ) (current : LockdownState) (answer : Polled) (s : Server)
    → is_immediate current ≡ false
    → IsAnswer answer (settle current s)
    → OnePlace d s
    → OnePlace d (iterate current answer s).1
unfolding iterate
iterate-OnePlace d current failed s calm h v = settle-OnePlace d current s calm v
iterate-OnePlace d current timed_out s calm h v = settle-OnePlace d current s calm v
iterate-OnePlace d current (events_of accepted es) s calm h v =
    serve-OnePlace d accepted es (settle current s) h (settle-OnePlace d current s calm v)

take_task-OnePlace : (d : ℕ) {s t : Server} → take_task s ≡ some t → OnePlace d s → OnePlace d t
unfolding take_task
take_task-OnePlace d {s} {t} h v = from_front s.tasks refl h
  where
    from_front : (ts : List Task) → s.tasks ≡ ts → take_front ts s ≡ some t → OnePlace d t
    from_front [] e h = ground arith
    from_front (task ∷ ts) e h =
        let u = record s { tasks = ts; handling = task.fd ∷ s.handling } in
        subst (OnePlace d) (some-injective u t h)
          (record { balance = omega (arith, v.balance, ap (queued d) e); single = v.single })

post-OnePlace :
    (d fd : ℕ) (type : ActionType) (before after : List ℕ) (s : Server)
    → s.handling ≡ before ++ fd ∷ after
    → OnePlace d s
    → OnePlace d (post fd type (record s { handling = before ++ after }))
unfolding post
post-OnePlace d fd type before after s h v = record {
  balance = omega (
    arith,
    v.balance,
    ap (served d) h,
    count-append (λ f. f == d) before (fd ∷ after),
    count-append (λ f. f == d) before after,
    count-append (λ a. a.fd == d) s.pending_actions ((record { fd = fd; type = type }) ∷ []),
  );
  single = v.single;
}

Step-OnePlace : (d : ℕ) {s t : Server} → Step s t → OnePlace d s → OnePlace d t
Step-OnePlace d {s} (rounds current answer calm h) v = iterate-OnePlace d current answer s calm h v
Step-OnePlace d (takes h) v = take_task-OnePlace d h v
Step-OnePlace d {s} (finishes before after fd type h) v = post-OnePlace d fd type before after s h v

Reach-OnePlace : (d : ℕ) {s t : Server} → Reach s t → OnePlace d s → OnePlace d t
Reach-OnePlace d here v = v
Reach-OnePlace d (next r step) v = Step-OnePlace d step (Reach-OnePlace d r v)

start-OnePlace : (server_fd d : ℕ) → OnePlace d (start server_fd)
unfolding start
start-OnePlace server_fd d = record { balance = ground arith; single = ground arith }

-- Whatever rounds, workers and handlers do, in any order and with no IMMEDIATE lockdown, and where
-- a client is closed by the handler of its own request only, a descriptor has at most one entry in the poll table, and exactly as many places as entries: it is
-- polled, or one action for it is pending, or one request of it waits in the queue, or one worker
-- serves it. So no two requests of a client are served at a time, no client that is suspended is
-- forgotten, and no place is left for a client that is gone.
pub one_place :
    (server_fd d : ℕ) {s : Server}
    → Reach (start server_fd) s
    → (entries d s.fds
        ≡ polled d s.fds + (posted d s.pending_actions + queued d s.tasks + served d s.handling))
      × (entries d s.fds ≤ 1)
one_place server_fd d r =
    let v = Reach-OnePlace d r (start-OnePlace server_fd d) in (v.balance, v.single)
