-- ===== src/Testsuite/Exit.antt =====
-- The exit code that `runtime` returns.
use mathlib.Core.Path.{subst}
use akkon.Base.{
  ℕ, zero, suc, ◌-◌, ◌/◌, ◌≡◌, ◌⊎◌, inl, inr, refl, sym, ap, ◌∙◌, Bool, true, false, if_cases,
  Option, none, some, List, [], ◌∷◌, if◌then◌else◌, arith,
}
use akkon.Base.Int.{ℤ, pos, negsuc}
use akkon.Base.Text.{Text, codes, text_eq}
use akkon.Base.TextMap.{lookup-insert}
use akkon.Testsuite.{
  InstanceInfo, InstanceStatus, no_child, Os, Framework, is_started, running, stopped,
}
use akkon.Testsuite.Instances.{in_system, set_status, create_instance}
use akkon.Testsuite.Status.{
  get_status, is_running, get_exit_code, is_gone, reached, milliseconds, wait_rounds,
  wait_for_instance, kill_instance, stop_instance,
}
use akkon.Testsuite.Runtime.{set_all, setup_environment, after_waiting, run_created, runtime}
use akkon.Testsuite.Wait.{IsSteady, wait_for_instance_lem}
use akkon.Testsuite.Creation.{Runs, Creates, create_instance_lem}

-- What POSIX says of `waitpid`: a process that it has returned, or that is no child, is no child when
-- it is asked for again.
abbrev pub ReapsOnce : {W : Type 0} → Os W → Type 0
ReapsOnce {W} os =
    (w : W) (pid : ℤ)
    → is_gone (os.wait_now w pid).0 ≡ true
    → (os.wait_now (os.wait_now w pid).1 pid).0 ≡ no_child

module _ {W : Type 0} (os : Os W) (once : ReapsOnce os) where
  -- What `isRunning` leaves: the instance still runs, or its exit code is lost.
  abbrev pub Sees : Text → Bool × Framework W → Type 0
  Sees key seen =
      ((seen.0 ≡ true) × Runs key seen.1)
      ⊎ ((seen.0 ≡ false) × ((get_exit_code os key seen.1).0 ≡ negsuc 0))

  lost_exit_code :
      (key : Text) (info : InstanceInfo) (f : Framework W)
      → is_started info.pid ≡ true
      → is_gone (os.wait_now f.system info.pid).0 ≡ true
      → (get_exit_code os key
          (set_status stopped key info (in_system (os.wait_now f.system info.pid).1 f))).0
        ≡ negsuc 0
  unfolding get_exit_code get_status
  lost_exit_code key info f started gone =
      rw
        (
          get_exit_code,
          get_status,
          lookup-insert key (record info { status = stopped }) f.m_instances,
          started,
          once f.system info.pid gone,
        )
        refl

  is_running-Sees : (key : Text) (f : Framework W) → Runs key f → Sees key (is_running os key f)
  unfolding is_running get_status
  is_running-Sees key f runs =
      rw (is_running, get_status, runs.tracked, runs.started)
        (if_cases Reported (is_gone (os.wait_now f.system runs.info.pid).0) _ _
          (λ gone. inr (refl, lost_exit_code key runs.info f runs.started gone))
          (λ _. inl (
            rw runs.status refl,
            record {
              info = runs.info;
              tracked = runs.tracked;
              status = runs.status;
              started = runs.started;
            },
          )))
    where
      Reported : InstanceStatus × Framework W → Type 0
      Reported result = Sees key (text_eq result.0.status running, result.1)

  -- What `waitForInstance` leaves where it ends.
  abbrev pub Lost : Text → Option (Bool × Framework W) → Type 0
  Lost key result =
      (g : Framework W) → result ≡ some (true, g) → (get_exit_code os key g).0 ≡ negsuc 0

  wait_rounds-Lost :
      (rounds start : ℕ) (timeout_ms : ℤ) (key : Text) (f : Framework W)
      → Runs key f
      → Lost key (wait_rounds os rounds start timeout_ms key f)
  unfolding wait_rounds
  wait_rounds-Lost zero start timeout_ms key f runs = λ g h. absurd (ground (arith, h))
  wait_rounds-Lost (suc rounds) start timeout_ms key f runs =
      by_sight (is_running os key f)
        (λ g.
          wait_rounds-Lost rounds start timeout_ms key
            (in_system (os.sleep g.system (milliseconds 50)) g))
        (is_running-Sees key f runs)
    where
      by_sight :
          (seen : Bool × Framework W)
          → ((g : Framework W)
              → Runs key (in_system (os.sleep g.system (milliseconds 50)) g)
              → Lost key (
                  wait_rounds os rounds start timeout_ms key
                    (in_system (os.sleep g.system (milliseconds 50)) g)))
          → Sees key seen
          → Lost key (
              if seen.0
              then (if reached timeout_ms ((os.steady_now seen.1.system - start) / 1000000)
                  then some (false, seen.1)
                  else wait_rounds os rounds start timeout_ms key
                      (in_system (os.sleep seen.1.system (milliseconds 50)) seen.1))
              else some (true, seen.1))
      by_sight (true, h) rest (inl (there, still)) =
          if_cases (Lost key) (reached timeout_ms ((os.steady_now h.system - start) / 1000000)) _ _
            (λ _ g e. absurd (ground (arith, e)))
            (λ _. rest h (record {
              info = still.info;
              tracked = still.tracked;
              status = still.status;
              started = still.started;
            }))
      by_sight (false, h) rest (inl (there, still)) = absurd (ground (arith, there))
      by_sight (true, h) rest (inr (gone, lost)) = absurd (ground (arith, gone))
      by_sight (false, h) rest (inr (gone, lost)) = λ g e.
          subst (λ x. (get_exit_code os key x).0 ≡ negsuc 0)
            (ap (λ o. elim o [ none ↦ h | some result ↦ result.1 ]) e) lost

  wait_for_instance-Lost :
      (rounds : ℕ) (key : Text) (timeout_ms : ℤ) (f : Framework W)
      → Runs key f
      → Lost key (wait_for_instance os rounds key timeout_ms f)
  unfolding wait_for_instance
  wait_for_instance-Lost rounds key timeout_ms f runs =
      wait_rounds-Lost rounds (os.steady_now f.system) timeout_ms key f runs

  -- `runtime` has ended with the code.
  abbrev pub Returns : ℤ → Option (ℤ × Framework W) → Type 0
  Returns code result = (g : Framework W) × (result ≡ some (code, g))

  after_waiting-Returns :
      (key : Text) (ended : Bool) (g : Framework W)
      → Lost key (some (ended, g))
      → Returns (negsuc 0) (after_waiting os key (some (ended, g)))
  after_waiting-Returns key false g lost = ((kill_instance os key g).1, refl)
  after_waiting-Returns key true g lost =
      ((stop_instance os key (get_exit_code os key g).1).1, rw (lost g refl) refl)

  run_created-Returns :
      (steady : IsSteady os) (key : Text) (f : Framework W) (created : Text × Framework W)
      → Creates os key f created
      → Returns (negsuc 0) (run_created os 6001 created)
  run_created-Returns steady key f ([], g) h = (g, refl)
  run_created-Returns steady key f (c ∷ id, g) (kept, inl e) = absurd (ground (arith, e))
  run_created-Returns steady key f (c ∷ id, g) (kept, inr (e, runs)) =
      let started = subst (λ k. Runs k g) (sym e) runs in
      let (ended, h, waited, over) =
        wait_for_instance_lem os steady 6000 (c ∷ id) (pos 300000) g (omega arith) in
      rw waited (
        after_waiting-Returns (c ∷ id) ended h
          (λ x same. wait_for_instance-Lost 6001 (c ∷ id) (pos 300000) g started x (waited ∙ same)))

  -- Where `waitpid` reaps a process once and the clock is steady, `runtime` always ends, within 6001
  -- rounds of its wait, and whatever the process does, the code that it returns is -1: a process that
  -- has ended was reaped by the wait, and is no child any more when its exit code is asked for.
  pub runtime_lem :
      (steady : IsSteady os) (args : List Text) (env : List (Text × Text)) (f : Framework W)
      → Returns (negsuc 0) (runtime os 6001 args env f)
  unfolding runtime
  runtime_lem steady args env f =
      let ready = in_system (set_all os (setup_environment os f.system env) f.system) f in
      let (key, created) = create_instance_lem os args (codes "test_logs") ready in
      run_created-Returns steady key ready (create_instance os args (codes "test_logs") ready)
        created
