-- ===== src/Memory/Tests.antt =====
-- The manager with its five arenas.
use akkon.Base.{◌≡◌, some}
use akkon.Memory.Arena.{make}
use akkon.Memory.Manager.{request, make_manager, capacity_of, get_domain, get_domain-make_manager}

request_arena :
    get_domain (make_manager (λ _. 4096)) request ≡ some (make 4096 (capacity_of request))
request_arena = get_domain-make_manager (λ _. 4096) request
