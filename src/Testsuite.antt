-- ===== src/Testsuite.antt =====
-- `TestFramework` of src/testsuite/TestFramework.{h,cpp} as it is compiled for POSIX: what it keeps of
-- the processes, and what it asks of the system.
pub mod Instances
pub mod Status
pub mod Runtime
pub mod Stopped
pub mod Wait
pub mod Creation
pub mod Exit
pub mod Environment
pub mod Logs
mod Tests
use akkon.Base.{
  ℕ, zero, suc, ◌+◌, ◌-◌, ◌*◌, ◌/◌, ◌%◌, ◌^◌, Bool, true, false, Option, List, if◌then◌else◌, leb,
}
use akkon.Base.Int.{ℤ, pos, negsuc}
use akkon.Base.Text.{Text, codes}

pub record InstanceInfo : Type 0 where
  pub pid : ℤ
  pub tracker_id : Text
  pub log_file : Text
  pub start_time : ℕ
  pub status : Text
  pub binary_path : Text
  pub args : List Text

pub record InstanceStatus : Type 0 where
  pub pid : ℤ
  pub tracker_id : Text
  pub status : Text
  pub uptime_ms : ℕ
  pub last_log_line : Text
  pub exit_code : ℤ

-- `waitpid`: the process is reaped with its exit status, or the signal that ended it, or neither; it
-- runs; there is no such child; or another error.
pub data Waited : Type 0 where
  exited signaled : ℕ → Waited
  reaped still_running no_child wait_failed : Waited

-- `kill`: done, `ESRCH`, or another error.
pub data Killed : Type 0 where
  sent no_process not_permitted : Killed

-- The system that the process runs in, with its states `W`; the clocks count nanoseconds.
pub record Os (W : Type 0) : Type 0 where
  pub getenv : W → Text → Option Text
  pub setenv : W → Text → Text → W
  pub exists : W → Text → Bool
  pub absolute : W → Text → Text
  pub current_path : W → Text
  pub join : Text → Text → Text
  pub create_directories : W → Text → Option W
  pub draw : W → ℕ × W
  pub system_now : W → ℕ
  pub steady_now : W → ℕ
  pub sleep : W → ℕ → W
  pub read_lines : W → Text → Option (List Text)
  pub open_append : W → Text → Option W
  pub append : W → Text → Text → W
  pub spawn : W → Text → List Text → Text → Option ℕ × W
  pub wait_now : W → ℤ → Waited × W
  pub wait_end : W → ℤ → W
  pub kill : W → ℤ → ℕ → Killed × W

-- `m_instances`, and the system as the object finds it.
pub record Framework (W : Type 0) : Type 0 where
  pub m_instances : List (Text × InstanceInfo)
  pub system : W

-- `pid != -1`.
abbrev pub is_started : ℤ → Bool
is_started (pos n) = true
is_started (negsuc zero) = false
is_started (negsuc (suc n)) = true

abbrev pub running : Text
running = codes "running"

abbrev pub stopped : Text
stopped = codes "stopped"

abbrev pub uint64_mod : ℕ
uint64_mod = 2 ^ 64

-- `uptime.count()`, as it is stored in a `uint64_t`.
abbrev pub uptime : ℕ → ℕ → ℕ
uptime start now =
    if leb start now
    then ((now - start) / 1000000) % uint64_mod
    else (uint64_mod - ((start - now) / 1000000) % uint64_mod) % uint64_mod
