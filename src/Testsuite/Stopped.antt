-- ===== src/Testsuite/Stopped.antt =====
-- The instances that are stopped stay so.
use mathlib.Core.Path.{subst}
use akkon.Base.{
  ℕ, zero, suc, ◌≡◌, refl, Bool, true, false, if_cases, ◌⊎◌, inl, inr, Option, none, some, arith,
}
use akkon.Base.Text.{Text}
use akkon.Base.TextMap.{lookup, lookup-insert}
use akkon.Testsuite.{
  InstanceInfo, InstanceStatus, Killed, sent, no_process, not_permitted, Os, Framework, is_started,
  stopped,
}
use akkon.Testsuite.Instances.{set_status}
use akkon.Testsuite.Status.{
  get_status, is_running, stop_rounds, stop_instance, kill_instance, stop_tracked, kill_tracked,
  after_term, is_gone, is_reaped,
}

-- Tracked, with the status stopped.
abbrev pub IsStopped : {W : Type 0} → Text → Framework W → Type 0
IsStopped key f =
    (info : InstanceInfo) × (lookup key f.m_instances ≡ some info) × (info.status ≡ stopped)

module _ {W : Type 0} where
  pub set_status-IsStopped :
      (key : Text) (info : InstanceInfo) (f : Framework W)
      → IsStopped key (set_status stopped key info f)
  set_status-IsStopped key info f = (
    record info { status = stopped },
    lookup-insert key (record info { status = stopped }) f.m_instances,
    refl,
  )

  -- What an operation that reports success leaves stopped.
  abbrev pub Stops : Text → Bool × Framework W → Type 0
  Stops key result = result.0 ≡ true → IsStopped key result.1

  set_status-Stops :
      (key : Text) (info : InstanceInfo) (f : Framework W)
      → Stops key (true, set_status stopped key info f)
  set_status-Stops key info f _ = set_status-IsStopped key info f

module _ {W : Type 0} (os : Os W) where
  abbrev pub Reports : Text → InstanceStatus × Framework W → Type 0
  Reports key result = (result.0.status ≡ stopped) × IsStopped key result.1

  -- `getStatus` says so, and leaves it so.
  pub get_status-IsStopped :
      (key : Text) (f : Framework W) → IsStopped key f → Reports key (get_status os key f)
  unfolding get_status
  get_status-IsStopped key f (info, e, s) = rw e (
      if_cases (Reports key) (is_started info.pid) _ _
        (λ _.
          if_cases (Reports key) (is_gone (os.wait_now f.system info.pid).0) _ _
            (λ _. (refl, set_status-IsStopped key info f)) (λ _. (s, (info, e, s))))
        (λ _. (s, (info, e, s))))

  pub is_running-IsStopped :
      (key : Text) (f : Framework W)
      → IsStopped key f
      → ((is_running os key f).0 ≡ false) × IsStopped key (is_running os key f).1
  unfolding is_running
  is_running-IsStopped key f h =
      let (reported, kept) = get_status-IsStopped key f h in (rw reported refl, kept)

  stop_rounds-Stops :
      (n : ℕ) (key : Text) (info : InstanceInfo) (f : Framework W)
      → Stops key (stop_rounds os n key info f)
  unfolding stop_rounds
  stop_rounds-Stops zero key info f = λ h. absurd (ground (arith, h))
  stop_rounds-Stops (suc n) key info f =
      if_cases (Stops key) (is_gone (os.wait_now f.system info.pid).0) _ _
        (λ _. set_status-Stops key info f) (λ _. stop_rounds-Stops n key info _)

  after_term-Stops :
      (key : Text) (info : InstanceInfo) (killed : Killed) (w : W) (f : Framework W)
      → Stops key (after_term os key info (killed, w) f)
  after_term-Stops key info sent w f = stop_rounds-Stops 20 key info _
  after_term-Stops key info no_process w f = set_status-Stops key info f
  after_term-Stops key info not_permitted w f = λ h. absurd (ground (arith, h))

  stop_tracked-Stops :
      (key : Text) (found : Option InstanceInfo) (f : Framework W)
      → Stops key (stop_tracked os key found f)
  stop_tracked-Stops key none f = λ h. absurd (ground (arith, h))
  stop_tracked-Stops key (some info) f =
      if_cases (Stops key) (is_started info.pid) _ _
        (λ _.
          if_cases (Stops key) (is_reaped (os.wait_now f.system info.pid).0) _ _
            (λ _. set_status-Stops key info f)
            (λ _.
              after_term-Stops key info (os.kill (os.wait_now f.system info.pid).1 info.pid 15).0 _
                _))
        (λ _ h. absurd (ground (arith, h)))

  kill_tracked-Stops :
      (key : Text) (found : Option InstanceInfo) (f : Framework W)
      → Stops key (kill_tracked os key found f)
  kill_tracked-Stops key none f = λ h. absurd (ground (arith, h))
  kill_tracked-Stops key (some info) f =
      if_cases (Stops key) (is_started info.pid) _ _ (λ _. set_status-Stops key info f)
        (λ _ h. absurd (ground (arith, h)))

  -- Once `stopInstance` or `killInstance` has returned true for an instance, `isRunning` is false for
  -- it, and is false again when it is asked a second time, whatever the system reports.
  pub is_running-stop_instance :
      (key : Text) (f g : Framework W)
      → (stop_instance os key f ≡ (true, g)) ⊎ (kill_instance os key f ≡ (true, g))
      → ((is_running os key g).0 ≡ false) × ((is_running os key (is_running os key g).1).0 ≡ false)
  unfolding stop_instance kill_instance
  is_running-stop_instance key f g h =
      let (first, kept) = is_running-IsStopped key g (by_operation h) in
      (first, (is_running-IsStopped key (is_running os key g).1 kept).0)
    where
      by_operation :
          (stop_instance os key f ≡ (true, g)) ⊎ (kill_instance os key f ≡ (true, g))
          → IsStopped key g
      by_operation (inl e) =
          subst (Stops key) e (stop_tracked-Stops key (lookup key f.m_instances) f) refl
      by_operation (inr e) =
          subst (Stops key) e (kill_tracked-Stops key (lookup key f.m_instances) f) refl
