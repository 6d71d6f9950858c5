-- ===== src/Testsuite/Tests.antt =====
-- The test framework on a small system: a clock, and a process that ends at a time and is reaped once.
use akkon.Base.{
  ℕ, ◌+◌, ◌≤◌, ◌≡◌, inr, refl, Bool, true, false, none, some, [], ◌∷◌, if◌then◌else◌, leb, arith,
}
use akkon.Base.Int.{pos, negsuc}
use akkon.Base.Text.{Text, codes, text_eq}
use akkon.Base.TextMap.{insert}
use akkon.Crypto.Hex.{hex_digit}
use akkon.Testsuite.{Waited, exited, still_running, no_child, sent, no_process, Os, Framework}
use akkon.Testsuite.Instances.{draws, start_process, get_tracking, get_binary_path, create_instance}
use akkon.Testsuite.Status.{is_running, kill_instance, wait_for_instance, is_gone}
use akkon.Testsuite.Runtime.{runtime}
use akkon.Testsuite.Stopped.{is_running-stop_instance}
use akkon.Testsuite.Wait.{IsSteady, Ended, wait_for_instance_lem}
use akkon.Testsuite.Exit.{ReapsOnce, Returns, runtime_lem}

record Small : Type 0 where
  clock : ℕ
  ends_at : ℕ
  is_reaped : Bool

abbrev wait_small : Bool → Bool → Small → Waited × Small
wait_small true ended w = (no_child, w)
wait_small false true w = (exited 3, record w { is_reaped = true })
wait_small false false w = (still_running, w)

abbrev small_os : Os Small
small_os = record {
  getenv = λ w name. none;
  setenv = λ w name value. w;
  exists = λ w path. text_eq path (codes "./Akkon");
  absolute = λ w path. path;
  current_path = λ w. codes "/work";
  join = λ dir name. name;
  create_directories = λ w dir. some w;
  draw = λ w. (7, w);
  system_now = λ w. w.clock;
  steady_now = λ w. w.clock;
  sleep = λ w n. record w { clock = w.clock + n };
  read_lines = λ w path. none;
  open_append = λ w path. some w;
  append = λ w path text. w;
  spawn = λ w binary argv log. (some 42, w);
  wait_now = λ w pid. wait_small w.is_reaped (leb w.ends_at w.clock) w;
  wait_end = λ w pid. record w { is_reaped = true };
  kill = λ w pid signal. (if w.is_reaped then no_process else sent, record w { ends_at = w.clock });
}

small_os-IsSteady : IsSteady small_os
small_os-IsSteady = record {
  sleeps = λ w n. omega arith;
  waits = λ w pid. by_tests w.is_reaped (leb w.ends_at w.clock) w;
}
  where
    by_tests : (gone ended : Bool) (w : Small) → w.clock ≤ (wait_small gone ended w).1.clock
    by_tests true ended w = omega arith
    by_tests false true w = omega arith
    by_tests false false w = omega arith

small_os-ReapsOnce : ReapsOnce small_os
small_os-ReapsOnce w pid h = by_tests w.is_reaped (leb w.ends_at w.clock) refl h
  where
    by_tests :
        (gone ended : Bool)
        → w.is_reaped ≡ gone
        → is_gone (wait_small gone ended w).0 ≡ true
        → (small_os.wait_now (wait_small gone ended w).1 pid).0 ≡ no_child
    by_tests true ended e h = rw e refl
    by_tests false true e h = refl
    by_tests false false e h = absurd (ground (arith, h))

-- Before any instance, with a process that will take a tenth of a second.
abbrev fresh : Framework Small
fresh = record {
  m_instances = [];
  system = record { clock = 0; ends_at = 100000000; is_reaped = false };
}

abbrev created : Text × Framework Small
created = create_instance small_os (codes "-h" ∷ []) [] fresh

create_instance-fresh : created.0 ≡ codes "77777777"
unfolding create_instance draws start_process get_tracking get_binary_path insert hex_digit
create_instance-fresh = refl

wait_for_instance_lem_example :
    Ended small_os small_os-IsSteady 0
      (pos 1000)
      (codes "77777777")
      (wait_for_instance small_os 21 (codes "77777777") (pos 1000) created.1)
unfolding create_instance draws start_process get_tracking get_binary_path insert hex_digit
wait_for_instance_lem_example =
    wait_for_instance_lem small_os small_os-IsSteady 20 (codes "77777777") (pos 1000) created.1
      (omega arith)

runtime_lem_example :
    Returns small_os small_os-ReapsOnce (negsuc 0) (runtime small_os 6001 [] [] fresh)
runtime_lem_example = runtime_lem small_os small_os-ReapsOnce small_os-IsSteady [] [] fresh

is_running-stop_instance_example :
    ((is_running small_os
        (codes "77777777")
        (kill_instance small_os (codes "77777777") created.1).1).0
      ≡ false)
    × ((is_running small_os
          (codes "77777777")
          (is_running small_os
            (codes "77777777")
            (kill_instance small_os (codes "77777777") created.1).1).1).0
        ≡ false)
unfolding kill_instance create_instance draws start_process get_tracking get_binary_path insert
    hex_digit
is_running-stop_instance_example =
    is_running-stop_instance small_os (codes "77777777") created.1
      (kill_instance small_os (codes "77777777") created.1).1 (inr refl)
