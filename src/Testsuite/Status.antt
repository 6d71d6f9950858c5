-- ===== src/Testsuite/Status.antt =====
-- The operations of `TestFramework` of src/testsuite/TestFramework.cpp that look at the processes and
-- end them, without what they print.
use akkon.Base.{
  ℕ, zero, suc, ◌-◌, ◌*◌, ◌/◌, Bool, true, false, Option, none, some, List, [], ◌∷◌, length, drop,
  if◌then◌else◌, leb, ◌==◌,
}
use akkon.Base.Int.{ℤ, pos, negsuc, minus}
use akkon.Base.Text.{Text, codes, text_eq}
use akkon.Base.TextMap.{lookup, keys}
use akkon.Construction.MasterDb.{is_empty}
use akkon.Testsuite.{
  InstanceInfo, InstanceStatus, Waited, exited, signaled, reaped, still_running, no_child,
  wait_failed, Killed, sent, no_process, not_permitted, Os, Framework, is_started, running, stopped,
  uptime,
}
use akkon.Testsuite.Instances.{set_status, in_system, get_tracking}

abbrev pub not_found : InstanceStatus
not_found = record {
  pid = negsuc 0;
  tracker_id = [];
  status = codes "not_found";
  uptime_ms = 0;
  last_log_line = [];
  exit_code = negsuc 0;
}

abbrev last_line : Text → List Text → Text
last_line line [] = line
last_line line (next ∷ lines) = last_line next lines

abbrev lines_or_none : Option (List Text) → List Text
lines_or_none none = []
lines_or_none (some lines) = lines

abbrev pub exit_of : Waited → ℤ
exit_of (exited code) = pos code
exit_of (signaled signal) = minus (pos 0) signal
exit_of reaped = negsuc 0
exit_of still_running = negsuc 0
exit_of no_child = negsuc 0
exit_of wait_failed = negsuc 0

-- `waitpid` returns the process.
abbrev pub is_reaped : Waited → Bool
is_reaped (exited code) = true
is_reaped (signaled signal) = true
is_reaped reaped = true
is_reaped still_running = false
is_reaped no_child = false
is_reaped wait_failed = false

-- ... or reports that there is no such child.
abbrev pub is_gone : Waited → Bool
is_gone (exited code) = true
is_gone (signaled signal) = true
is_gone reaped = true
is_gone still_running = false
is_gone no_child = true
is_gone wait_failed = false

-- The last `n` lines, where 0 is all of them.
unfoldable pub last_lines : ℕ → List Text → List Text
last_lines n lines =
    if n == 0 then lines else if leb (length lines) n then lines else drop (length lines - n) lines

abbrev pub milliseconds : ℕ → ℕ
milliseconds n = n * 1000000

-- `elapsed >= timeout_ms`.
abbrev pub reached : ℤ → ℕ → Bool
reached (pos timeout_ms) elapsed = leb timeout_ms elapsed
reached (negsuc n) elapsed = true

module _ {W : Type 0} where
  abbrev pub after_wait :
      Text → InstanceInfo → InstanceStatus → Waited × W → Framework W → InstanceStatus × Framework W
  after_wait key info status (waited, w) f =
      if is_gone waited
      then (
        record status { exit_code = exit_of waited; status = stopped },
        set_status stopped key info (in_system w f),
      )
      else (status, in_system w f)

  unfoldable pub get_log_path : Text → Framework W → Text
  get_log_path key f = (get_tracking key f).log_file

  abbrev pub list_instances : Framework W → List Text
  list_instances f = keys f.m_instances

module _ {W : Type 0} (os : Os W) where
  abbrev pub status_of : InstanceInfo → W → InstanceStatus
  status_of info w = record {
    pid = info.pid;
    tracker_id = info.tracker_id;
    status = info.status;
    uptime_ms = uptime info.start_time (os.system_now w);
    last_log_line = last_line [] (lines_or_none (os.read_lines w info.log_file));
    exit_code = negsuc 0;
  }

  abbrev pub tracked_status :
      Text → Option InstanceInfo → Framework W → InstanceStatus × Framework W
  tracked_status key none f = (not_found, f)
  tracked_status key (some info) f =
      if is_started info.pid
      then after_wait key info (status_of info f.system) (os.wait_now f.system info.pid) f
      else (status_of info f.system, f)

  -- `getStatus`, which changes what it is `const` in.
  unfoldable pub get_status : Text → Framework W → InstanceStatus × Framework W
  get_status key f = tracked_status key (lookup key f.m_instances) f

  unfoldable pub is_running : Text → Framework W → Bool × Framework W
  is_running key f = let found = get_status key f in (text_eq found.0.status running, found.1)

  unfoldable pub get_exit_code : Text → Framework W → ℤ × Framework W
  get_exit_code key f = let found = get_status key f in (found.0.exit_code, found.1)

  unfoldable pub get_logs : Text → ℕ → Framework W → List Text
  get_logs key num_lines f =
      let log_file = (get_tracking key f).log_file in
      if is_empty log_file
      then []
      else last_lines num_lines (lines_or_none (os.read_lines f.system log_file))

  -- The wait of `stopInstance`, with `n` rounds left.
  unfoldable pub stop_rounds : ℕ → Text → InstanceInfo → Framework W → Bool × Framework W
  stop_rounds zero key info f = (false, f)
  stop_rounds (suc n) key info f =
      let waited = os.wait_now f.system info.pid in
      let rest = stop_rounds n key info (in_system (os.sleep waited.1 (milliseconds 100)) f) in
      if is_gone waited.0 then (true, set_status stopped key info (in_system waited.1 f)) else rest

  -- After SIGTERM.
  abbrev pub after_term : Text → InstanceInfo → Killed × W → Framework W → Bool × Framework W
  after_term key info (sent, w) f = stop_rounds 20 key info (in_system w f)
  after_term key info (no_process, w) f = (true, set_status stopped key info (in_system w f))
  after_term key info (not_permitted, w) f = (false, in_system w f)

  abbrev pub stop_started : Text → InstanceInfo → Waited × W → Framework W → Bool × Framework W
  stop_started key info (waited, w) f =
      if is_reaped waited
      then (true, set_status stopped key info (in_system w f))
      else after_term key info (os.kill w info.pid 15) f

  abbrev pub stop_tracked : Text → Option InstanceInfo → Framework W → Bool × Framework W
  stop_tracked key none f = (false, f)
  stop_tracked key (some info) f =
      if is_started info.pid
      then stop_started key info (os.wait_now f.system info.pid) f
      else (false, f)

  unfoldable pub stop_instance : Text → Framework W → Bool × Framework W
  stop_instance key f = stop_tracked key (lookup key f.m_instances) f

  abbrev pub kill_tracked : Text → Option InstanceInfo → Framework W → Bool × Framework W
  kill_tracked key none f = (false, f)
  kill_tracked key (some info) f =
      if is_started info.pid
      then (
        true,
        set_status stopped key info
            (in_system (os.wait_end (os.kill f.system info.pid 9).1 info.pid) f),
      )
      else (false, f)

  unfoldable pub kill_instance : Text → Framework W → Bool × Framework W
  kill_instance key f = kill_tracked key (lookup key f.m_instances) f

  -- The loop of `waitForInstance` from a time on, for at most so many rounds; `none` is out of rounds.
  unfoldable pub wait_rounds : ℕ → ℕ → ℤ → Text → Framework W → Option (Bool × Framework W)
  wait_rounds zero start timeout_ms key f = none
  wait_rounds (suc rounds) start timeout_ms key f =
      let seen = is_running key f in
      let w = seen.1.system in
      let rest =
        wait_rounds rounds start timeout_ms key (in_system (os.sleep w (milliseconds 50)) seen.1) in
      if seen.0
      then (if reached timeout_ms ((os.steady_now w - start) / 1000000)
          then some (false, seen.1)
          else rest)
      else some (true, seen.1)

  unfoldable pub wait_for_instance : ℕ → Text → ℤ → Framework W → Option (Bool × Framework W)
  wait_for_instance rounds key timeout_ms f =
      wait_rounds rounds (os.steady_now f.system) timeout_ms key f

  unfoldable pub cleanup_each : List Text → Framework W → Framework W
  cleanup_each [] f = f
  cleanup_each (key ∷ ids) f =
      let seen = is_running key f in
      cleanup_each ids (if seen.0 then (kill_instance key seen.1).1 else seen.1)

  unfoldable pub cleanup : Framework W → Framework W
  cleanup f = record (cleanup_each (list_instances f) f) { m_instances = [] }
