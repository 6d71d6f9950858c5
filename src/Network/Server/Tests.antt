-- ===== src/Network/Server/Tests.antt =====
-- A client connects, sends a request, is served and is polled again; another waits in the queue.
use akkon.Base.{◌+◌, ◌≤◌, ◌≡◌, refl, none, some, [], ◌∷◌}
use akkon.Base.Text.{codes}
use akkon.Security.{safe}
use akkon.Network.Server.{
  Server, enable_polling, start, post, settle, on_lockdown, iterate, serve, receive_clients,
  receive, sweep, perform_all, take_task, received, events_of,
}
use akkon.Network.Server.Table.{entries, polled, posted, queued, served}
use akkon.Network.Server.Places.{rounds, takes, finishes, Reach, here, next, one_place}

abbrev connected : Server
connected = (iterate safe (events_of (some 7) []) (start 3)).1

abbrev asked : Server
asked = (iterate safe (events_of none (received (codes "AKKON hello") ∷ [])) connected).1

abbrev serving : Server
serving = record asked { tasks = []; handling = 7 ∷ [] }

abbrev answered : Server
answered = post 7 enable_polling (record serving { handling = [] })

answered-Reach : Reach (start 3) answered
unfolding start iterate serve settle on_lockdown receive_clients receive sweep perform_all take_task
    post
answered-Reach =
    next
      (next
        (next (next here (rounds safe (events_of (some 7) []) refl (refl, refl)))
          (rounds safe (events_of none (received (codes "AKKON hello") ∷ [])) refl (refl, refl)))
        (takes refl))
      (finishes [] [] 7 enable_polling refl)

one_place_example :
    (entries 7 answered.fds
      ≡ polled 7 answered.fds
        + (posted 7 answered.pending_actions
            + queued 7 answered.tasks
            + served 7 answered.handling))
    × (entries 7 answered.fds ≤ 1)
one_place_example = one_place 3 7 answered-Reach
