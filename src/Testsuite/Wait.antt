-- ===== src/Testsuite/Wait.antt =====
-- How long `waitForInstance` runs.
use akkon.Base.{
  ℕ, zero, suc, ◌+◌, ◌-◌, ◌*◌, ◌/◌, ◌≤◌, ◌<◌, ◌≡◌, refl, Bool, true, false, if_cases, Option, none,
  some, if◌then◌else◌, not_leb→lt, arith,
}
use akkon.Base.Int.{ℤ, pos, negsuc, to_nat}
use akkon.Base.Text.{Text}
use akkon.Base.TextMap.{lookup}
use akkon.Testsuite.{InstanceInfo, InstanceStatus, Os, Framework, is_started}
use akkon.Testsuite.Instances.{in_system}
use akkon.Testsuite.Status.{
  get_status, is_running, tracked_status, is_gone, reached, milliseconds, wait_rounds,
  wait_for_instance,
}

-- What is documented of the steady clock: it does not go back, and a sleep takes at least its time.
pub record IsSteady {W : Type 0} (os : Os W) : Type 0 where
  pub sleeps : (w : W) (n : ℕ) → os.steady_now w + n ≤ os.steady_now (os.sleep w n)
  pub waits : (w : W) (pid : ℤ) → os.steady_now w ≤ os.steady_now (os.wait_now w pid).1

module _ {W : Type 0} (os : Os W) (steady : IsSteady os) where
  tracked_status-steady :
      (key : Text) (found : Option InstanceInfo) (f : Framework W)
      → os.steady_now f.system ≤ os.steady_now (tracked_status os key found f).1.system
  tracked_status-steady key none f = omega arith
  tracked_status-steady key (some info) f =
      if_cases Later (is_started info.pid) _ _
        (λ _.
          if_cases Later (is_gone (os.wait_now f.system info.pid).0) _ _
            (λ _. steady.waits f.system info.pid) (λ _. steady.waits f.system info.pid))
        (λ _. omega arith)
    where
      Later : InstanceStatus × Framework W → Type 0
      Later result = os.steady_now f.system ≤ os.steady_now result.1.system

  is_running-steady :
      (key : Text) (f : Framework W)
      → os.steady_now f.system ≤ os.steady_now (is_running os key f).1.system
  unfolding is_running get_status
  is_running-steady key f = tracked_status-steady key (lookup key f.m_instances) f

  -- The loop ended: either the instance does not run, or the time is over.
  abbrev pub Ended : ℕ → ℤ → Text → Option (Bool × Framework W) → Type 0
  Ended start timeout_ms key result =
      (ended : Bool) × (g : Framework W) × (result ≡ some (ended, g))
      × (ended ≡ false → reached timeout_ms ((os.steady_now g.system - start) / 1000000) ≡ true)

  not_reached :
      (start now : ℕ) (timeout_ms : ℤ)
      → reached timeout_ms ((now - start) / 1000000) ≡ false
      → now < start + milliseconds (to_nat timeout_ms)
  not_reached start now (pos n) h =
      let later = not_leb→lt n ((now - start) / 1000000) h in omega (arith, later)
  not_reached start now (negsuc n) h = absurd (ground (arith, h))

  -- One round, if what follows it ends where the time is not over.
  round-Ended :
      (start : ℕ) (timeout_ms : ℤ) (key : Text) (f : Framework W)
      (rest : Option (Bool × Framework W))
      → (reached timeout_ms ((os.steady_now (is_running os key f).1.system - start) / 1000000)
            ≡ false
          → Ended start timeout_ms key rest)
      → Ended start timeout_ms key (
          if (is_running os key f).0
          then (if reached timeout_ms
                ((os.steady_now (is_running os key f).1.system - start) / 1000000)
              then some (false, (is_running os key f).1)
              else rest)
          else some (true, (is_running os key f).1))
  round-Ended start timeout_ms key f rest next =
      if_cases (Ended start timeout_ms key) (is_running os key f).0 _ _
        (λ _.
          if_cases (Ended start timeout_ms key)
            (reached timeout_ms ((os.steady_now (is_running os key f).1.system - start) / 1000000))
            _ _ (λ over. (false, (is_running os key f).1, refl, λ _. over)) next)
        (λ _. (true, (is_running os key f).1, refl, λ h. absurd (ground (arith, h))))

  wait_rounds-Ended :
      (rounds start : ℕ) (timeout_ms : ℤ) (key : Text) (f : Framework W)
      → start + milliseconds (to_nat timeout_ms) ≤ os.steady_now f.system + rounds * milliseconds 50
      → Ended start timeout_ms key (wait_rounds os (suc rounds) start timeout_ms key f)
  unfolding wait_rounds
  wait_rounds-Ended zero start timeout_ms key f h =
      round-Ended start timeout_ms key f none (λ early. absurd (
        omega (
          arith,
          h,
          is_running-steady key f,
          not_reached start (os.steady_now (is_running os key f).1.system) timeout_ms early,
        )))
  wait_rounds-Ended (suc rounds) start timeout_ms key f h =
      let seen = is_running os key f in
      let slept = in_system (os.sleep seen.1.system (milliseconds 50)) seen.1 in
      round-Ended start timeout_ms key f (wait_rounds os (suc rounds) start timeout_ms key slept)
        (λ _. wait_rounds-Ended rounds start timeout_ms key slept (
          omega (arith, h, is_running-steady key f, steady.sleeps seen.1.system (milliseconds 50))))

  -- With a steady clock, `waitForInstance` ends after at most one round more than there are 50
  -- milliseconds in the timeout; and where it returns false, the timeout is over.
  pub wait_for_instance_lem :
      (rounds : ℕ) (key : Text) (timeout_ms : ℤ) (f : Framework W)
      → to_nat timeout_ms ≤ rounds * 50
      → Ended
          (os.steady_now f.system)
          timeout_ms
          key
          (wait_for_instance os (suc rounds) key timeout_ms f)
  unfolding wait_for_instance
  wait_for_instance_lem rounds key timeout_ms f h =
      wait_rounds-Ended rounds (os.steady_now f.system) timeout_ms key f (omega (arith, h))
