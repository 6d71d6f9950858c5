-- ===== src/Network/Server.antt =====
-- `Server` and the queue of its `ThreadPool` in src/network/Server.{h,cpp}: the poll table, the
-- actions that handlers post, and the requests that workers take.
pub mod Table
pub mod Places
mod Tests
use akkon.Base.{
  ℕ, Bool, true, false, ◌&&◌, ◌||◌, Option, none, some, List, [], ◌∷◌, ◌++◌, take, if◌then◌else◌,
  ◌==◌,
}
use akkon.Security.{LockdownState, safe, close, immediate}

pub data ActionType : Type 0 where
  close_client enable_polling : ActionType

pub record ClientAction : Type 0 where
  pub fd : ℕ
  pub type : ActionType

-- An entry of `m_fds`: `none` is the descriptor -1, and `polling` says whether `events` is `POLLIN`
-- or 0.
pub record PollFd : Type 0 where
  pub fd : Option ℕ
  pub polling : Bool

-- A request in the queue of the pool.
pub record Task : Type 0 where
  pub fd : ℕ
  pub data_bytes : List ℕ

-- `handling` are the clients whose requests the workers have taken.
pub record Server : Type 0 where
  pub fds : List PollFd
  pub pending_actions : List ClientAction
  pub tasks : List Task
  pub handling : List ℕ
  pub last_state : LockdownState

abbrev pub same_fd : Option ℕ → ℕ → Bool
same_fd none d = false
same_fd (some f) d = f == d

-- `start`, up to the loop.
pub start : ℕ → Server
start server_fd = record {
  fds = (record { fd = some server_fd; polling = true }) ∷ [];
  pending_actions = [];
  tasks = [];
  handling = [];
  last_state = safe;
}

pub post : ℕ → ActionType → Server → Server
post fd type s = record s {
  pending_actions = s.pending_actions ++ (record { fd = fd; type = type }) ∷ [];
}

pub disconnect_all : Server → Server
disconnect_all s = record s { fds = take 1 s.fds }

abbrev pub is_immediate : LockdownState → Bool
is_immediate safe = false
is_immediate close = false
is_immediate immediate = true

pub on_lockdown : LockdownState → Server → Server
on_lockdown current s =
    let edge : Bool =
      if is_immediate current then (if is_immediate s.last_state then false else true) else false in
    let t = if edge then disconnect_all s else s in record t { last_state = current }

-- What one pending action does to one entry.
abbrev pub act_on : ActionType → PollFd → PollFd
act_on close_client p = record p { fd = none }
act_on enable_polling p = record p { polling = true }

pub perform : ClientAction → List PollFd → List PollFd
perform a [] = []
perform a (p ∷ ps) = (if same_fd p.fd a.fd then act_on a.type p else p) ∷ perform a ps

pub perform_all : List ClientAction → List PollFd → List PollFd
perform_all [] ps = ps
perform_all (a ∷ actions) ps = perform_all actions (perform a ps)

-- `erase` of the entries whose descriptor is -1.
abbrev pub keep : Option ℕ → PollFd → List PollFd → List PollFd
keep none p ps = ps
keep (some f) p ps = p ∷ ps

pub sweep : List PollFd → List PollFd
sweep [] = []
sweep (p ∷ ps) = keep p.fd p (sweep ps)

-- The round up to `poll`.
pub settle : LockdownState → Server → Server
settle current s =
    let t = on_lockdown current s in
    record t { fds = sweep (perform_all t.pending_actions t.fds); pending_actions = [] }

-- What `recv` gives where `POLLIN` is reported; `idle` where it is not.
pub data Event : Type 0 where
  idle disconnected : Event
  received : List ℕ → Event

abbrev pub task_for : Option ℕ → List ℕ → List Task
task_for none bytes = []
task_for (some f) bytes = (record { fd = f; data_bytes = bytes }) ∷ []

-- The body of the loop over the clients.
abbrev pub receive_one : PollFd → Event → PollFd × List Task
receive_one p idle = (p, [])
receive_one p disconnected = (record p { fd = none }, [])
receive_one p (received bytes) = (record p { polling = false }, task_for p.fd bytes)

-- Entries beyond the events were not there at the time of `poll`.
pub receive : List PollFd → List Event → List PollFd × List Task
receive [] es = ([], [])
receive (p ∷ ps) [] = (p ∷ ps, [])
receive (p ∷ ps) (e ∷ es) =
    let one = receive_one p e in let rest = receive ps es in (one.0 ∷ rest.0, one.1 ++ rest.1)

-- What `poll` and `accept` answer: an error, nothing within the time, or events, with the
-- descriptor of a new client.
pub data Polled : Type 0 where
  failed timed_out : Polled
  events_of : Option ℕ → List Event → Polled

abbrev pub new_client : Option ℕ → List PollFd
new_client none = []
new_client (some f) = (record { fd = some f; polling = true }) ∷ []

-- The loop starts at the second entry; the first is the server's own.
pub receive_clients : List PollFd → List Event → List PollFd × List Task
receive_clients [] es = ([], [])
receive_clients (p ∷ ps) es = let r = receive ps es in (p ∷ r.0, r.1)

-- The round after `poll`.
pub serve : Option ℕ → List Event → Server → Server
serve accepted es s =
    let r = receive_clients (s.fds ++ new_client accepted) es in
    record s { fds = sweep r.0; tasks = s.tasks ++ r.1 }

-- One round of the loop of `start`; `false` is its `break`.
pub iterate : LockdownState → Polled → Server → Bool × Server
iterate current failed s = (false, settle current s)
iterate current timed_out s = (true, settle current s)
iterate current (events_of accepted es) s = (true, serve accepted es (settle current s))

-- A worker takes the request in front.
abbrev pub take_front : List Task → Server → Option Server
take_front [] s = none
take_front (t ∷ ts) s = some (record s { tasks = ts; handling = t.fd ∷ s.handling })

pub take_task : Server → Option Server
take_task s = take_front s.tasks s
