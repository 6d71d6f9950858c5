-- ===== src/Monitor/Health/Score.antt =====
-- The score and the lockdown of the health check.
use akkon.Base.{ℕ, ◌+◌, ◌-◌, ◌≡◌, refl, Bool, some, arith, ltb, ◌==◌, if◌then◌else◌}
use akkon.Base.Int.{ℤ, pos, minus, at_least_zero}
use akkon.Security.{LockdownState, immediate}
use akkon.Monitor.Health.{
  Smart, Cache, refresh, mb, smart_score, disk_score, usage_at_least, ram_score, check_health,
}

-- What is taken from the score for the drive, the disk and the memory.
abbrev pub smart_penalty : Bool → ℕ
smart_penalty verified = if verified then 0 else 50

abbrev pub disk_penalty : ℕ → ℕ
disk_penalty available =
    if ltb available (mb 50) then 100 else if ltb available (mb 200) then 30 else 0

abbrev pub ram_penalty : ℕ → ℕ → ℕ
ram_penalty allocated capacity =
    if capacity == 0
    then 0
    else if usage_at_least 99 allocated capacity
    then 80
    else if usage_at_least 95 allocated capacity
    then 40
    else if usage_at_least 90 allocated capacity
    then 20
    else 0

by_tests :
    (verified low lower empty most much some_of : Bool)
    → let score : ℤ =
        if low
        then pos 0
        else if lower
        then minus (smart_score verified) 30
        else smart_score verified in
      let all : ℤ =
        if empty
        then score
        else if most
        then minus score 80
        else if much
        then minus score 40
        else if some_of
        then minus score 20
        else score in
      at_least_zero all
      ≡ pos (
          100
          - ((if verified then 0 else 50)
              + (if low then 100 else if lower then 30 else 0)
              + (if empty
                  then 0
                  else if most
                  then 80
                  else if much
                  then 40
                  else if some_of
                  then 20
                  else 0)))
by_tests verified low lower empty most much some_of = ground arith

-- Where the disk can be read, the score is 100 less the three penalties, and 0 where they exceed
-- 100; less than 50 MB of free space count 100. The state becomes IMMEDIATE then, and is kept
-- otherwise.
pub check_health_lem :
    (now : ℕ) (smart : Smart) (available allocated capacity : ℕ) (cache : Cache)
    (state : LockdownState)
    → let r = check_health now smart (some available) allocated capacity cache state in
      (r.0.reliability_score
        ≡ pos (
            100
            - (smart_penalty r.1.verified
                + disk_penalty available
                + ram_penalty allocated capacity)))
      × (r.2 ≡ (if ltb available (mb 50) then immediate else state))
unfolding check_health ram_score disk_score
check_health_lem now smart available allocated capacity cache state = (
  by_tests (refresh now smart cache).verified (ltb available (mb 50)) (ltb available (mb 200))
      (capacity == 0) (usage_at_least 99 allocated capacity) (usage_at_least 95 allocated capacity)
      (usage_at_least 90 allocated capacity),
  refl,
)
