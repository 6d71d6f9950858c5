-- ===== src/Monitor/Health.antt =====
-- `HealthMonitor::checkHealth` of src/monitor/HealthMonitor.{h,cpp}, without its log lines. The
-- quotient of the used memory is compared exactly: a quotient of sizes below 2 ^ 40 that differs
-- from 0.99, 0.95 or 0.90 differs by more than the rounding of a `double`.
pub mod Score
mod Tests
use akkon.Base.{
  ℕ, ◌+◌, ◌-◌, ◌*◌, Bool, true, false, not, Option, none, some, List, [], ◌∷◌, if◌then◌else◌, ltb,
  leb, ◌==◌,
}
use akkon.Base.Int.{ℤ, pos, negsuc, minus, at_least_zero}
use akkon.Base.Text.{Text, codes}
use akkon.Base.Find.{find}
use akkon.Security.{LockdownState, immediate}

pub record HealthStats : Type 0 where
  pub available_disk_bytes : ℕ
  pub reliability_score : ℤ

-- What each system answers of its drive: the flag `PredictFailure` where the device opens and
-- reports, nothing that is used, or the text of `diskutil`.
pub data Smart : Type 0 where
  windows : Option Bool → Smart
  linux : Smart
  apple : Text → Smart

abbrev predicts : Option Bool → Bool
predicts none = false
predicts (some predict_failure) = predict_failure

abbrev lacks : Option ℕ → Bool
lacks none = true
lacks (some at) = false

abbrev is_empty : Text → Bool
is_empty [] = true
is_empty (c ∷ cs) = false

-- `is_smart_verified`.
pub smart_verified : Smart → Bool
smart_verified (windows predict_failure) = not (predicts predict_failure)
smart_verified linux = true
smart_verified (apple smart_output) =
    if is_empty smart_output then true else not (lacks (find smart_output (codes "Verified") 0))

-- `cached_smart_verified` and `last_smart_check`, in seconds.
pub record Cache : Type 0 where
  pub verified : Bool
  pub last_check : ℕ

-- The check of the drive, at most every 300 seconds.
pub refresh : ℕ → Smart → Cache → Cache
refresh now smart cache =
    if ltb 300 (now - cache.last_check)
    then record { verified = smart_verified smart; last_check = now }
    else cache

abbrev pub mb : ℕ → ℕ
mb n = n * 1024 * 1024

abbrev pub smart_score : Bool → ℤ
smart_score verified = if verified then pos 100 else minus (pos 100) 50

-- The score after the limits of the disk.
pub disk_score : ℕ → ℤ → ℤ
disk_score available score =
    if ltb available (mb 50)
    then pos 0
    else if ltb available (mb 200)
    then minus score 30
    else score

-- `ram_usage >= percent / 100`.
abbrev pub usage_at_least : ℕ → ℕ → ℕ → Bool
usage_at_least percent allocated capacity = leb (percent * capacity) (100 * allocated)

pub ram_score : ℕ → ℕ → ℤ → ℤ
ram_score allocated capacity score =
    if capacity == 0
    then score
    else if usage_at_least 99 allocated capacity
    then minus score 80
    else if usage_at_least 95 allocated capacity
    then minus score 40
    else if usage_at_least 90 allocated capacity
    then minus score 20
    else score

-- `checkHealth`, at the time `now`; `none` is an exception of the file system, which leaves the
-- score 0. The result has the state of the cache and of the lockdown.
pub check_health :
    ℕ → Smart → Option ℕ → ℕ → ℕ → Cache → LockdownState → HealthStats × Cache × LockdownState
check_health now smart none allocated capacity cache state =
    (record { available_disk_bytes = 0; reliability_score = pos 0 }, cache, state)
check_health now smart (some available) allocated capacity cache state =
    let cache' = refresh now smart cache in
    (
      record {
        available_disk_bytes = available;
        reliability_score =
            at_least_zero
              (ram_score allocated capacity (disk_score available (smart_score cache'.verified)));
      },
      cache',
      (if ltb available (mb 50) then immediate else state),
    )
