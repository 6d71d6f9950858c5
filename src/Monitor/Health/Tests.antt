-- ===== src/Monitor/Health/Tests.antt =====
-- 100 MB of free space, and half of the memory in use.
use akkon.Base.{◌≡◌, true, some}
use akkon.Base.Int.{pos}
use akkon.Security.{safe}
use akkon.Monitor.Health.{Cache, linux, mb, refresh, check_health}
use akkon.Monitor.Health.Score.{check_health_lem}

abbrev fresh : Cache
fresh = record { verified = true; last_check = 1000 }

check_health_lem_example :
    ((check_health 1100 linux (some (mb 100)) 50 100 fresh safe).0.reliability_score ≡ pos 70)
    × ((check_health 1100 linux (some (mb 100)) 50 100 fresh safe).2 ≡ safe)
unfolding check_health refresh
check_health_lem_example = check_health_lem 1100 linux (mb 100) 50 100 fresh safe
