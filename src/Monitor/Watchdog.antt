-- ===== src/Monitor/Watchdog.antt =====
-- `SystemMonitor::runWatchdog` of src/monitor/SystemMonitor.cpp as it is compiled for POSIX: what it
-- writes to its log file, which it also prints. What `poll`, `read`, `getppid` and `kill` answer in
-- each round is an input.
use mathlib.Core.List.{append_assoc, append-nil}
use akkon.Base.{
  ℕ, ◌≡◌, refl, sym, ap, ◌∙◌, Bool, true, false, ◌||◌, Option, none, some, List, [], ◌∷◌, ◌++◌, All,
  if◌then◌else◌, ◌==◌, arith,
}
use akkon.Base.Text.{Text, codes}
use akkon.Base.Decimal.{to_string}
use akkon.Db.DataStorage.{c_str}

-- `read`: at most 1023 bytes, the end of the pipe, or an error.
pub data Read : Type 0 where
  bytes : Text → Read
  closed failed : Read

-- Whether the pipe is readable, what is read then, `getppid()`, and whether `kill` finds no process.
pub record Round : Type 0 where
  pub readable : Bool
  pub read : Read
  pub parent : ℕ
  pub main_gone : Bool

-- `main_alive` and the log after the read.
abbrev pub read_log : Read → Text → Bool × Text
read_log (bytes buffer) log = (true, log ++ c_str buffer)
read_log closed log = (false, log)
read_log failed log = (true, log)

abbrev pub poll_log : Round → Text → Bool × Text
poll_log round log = if round.readable then read_log round.read log else (true, log)

abbrev pub exited_line : Text
exited_line = codes "--- Main process exited ---\n"

abbrev pub is_over : Round → Bool
is_over round = (round.parent == 1) || round.main_gone

abbrev pub check_main : Round → Bool × Text → Bool × Text
check_main round (false, log) = (false, log)
check_main round (true, log) = if is_over round then (false, log ++ exited_line) else (true, log)

abbrev pub watch_round : Round → Text → Bool × Text
watch_round round log = check_main round (poll_log round log)

-- The loop; true where it still runs after these rounds.
unfoldable pub watch : List Round → Text → Bool × Text
watch [] log = (true, log)
watch (round ∷ rounds) log =
    let seen = watch_round round log in
    let rest = watch rounds seen.1 in if seen.0 then rest else seen

abbrev pub started_line : ℕ → Text
started_line main_pid =
    codes "--- Watchdog Started (Monitoring PID " ++ (to_string main_pid ++ codes ") ---\n")

-- The log of a watch that has ended.
unfoldable pub run_watchdog : ℕ → List Round → Option Text
run_watchdog main_pid rounds =
    let seen = watch rounds (started_line main_pid) in
    if seen.0 then none else some (seen.1 ++ codes "--- Watchdog Exiting ---\n")

-- What a round reads.
abbrev pub text_of : Read → Text
text_of (bytes buffer) = c_str buffer
text_of closed = []
text_of failed = []

abbrev pub read_in : Round → Text
read_in round = if round.readable then text_of round.read else []

abbrev pub all_read : List Round → Text
all_read [] = []
all_read (round ∷ rounds) = read_in round ++ all_read rounds

abbrev pub is_closed : Read → Bool
is_closed (bytes buffer) = false
is_closed closed = true
is_closed failed = false

abbrev pub sees_end : Round → Bool
sees_end round = if round.readable then is_closed round.read else false

-- A round that finds nothing amiss, and one that ends the watch.
abbrev pub GoesOn : Round → Type 0
GoesOn round = (sees_end round ≡ false) × (is_over round ≡ false)

abbrev pub last_line : Round → Text
last_line round = if sees_end round then [] else exited_line

watch_round-GoesOn :
    (round : Round) (log : Text)
    → GoesOn round
    → watch_round round log ≡ (true, log ++ read_in round)
watch_round-GoesOn round log h = by_poll round.readable round.read h.0
  where
    by_poll :
        (readable : Bool) (read : Read)
        → (if readable then is_closed read else false) ≡ false
        → check_main round (if readable then read_log read log else (true, log))
          ≡ (true, log ++ (if readable then text_of read else []))
    by_poll false read e = rw h.1 (ap (λ t. (true, t)) (sym (append-nil log)))
    by_poll true (bytes buffer) e = rw h.1 refl
    by_poll true closed e = absurd (ground (arith, e))
    by_poll true failed e = rw h.1 (ap (λ t. (true, t)) (sym (append-nil log)))

watch_round_ends :
    (round : Round) (log : Text)
    → (sees_end round || is_over round) ≡ true
    → watch_round round log ≡ (false, log ++ (read_in round ++ last_line round))
watch_round_ends round log h = by_poll round.readable round.read h
  where
    by_poll :
        (readable : Bool) (read : Read)
        → ((if readable then is_closed read else false) || is_over round) ≡ true
        → check_main round (if readable then read_log read log else (true, log)) ≡ (
          false,
          log
              ++ ((if readable then text_of read else [])
                  ++ (if (if readable then is_closed read else false) then [] else exited_line)),
        )
    by_poll false read e = rw e refl
    by_poll true (bytes buffer) e =
        rw e (ap (λ t. (false, t)) (append_assoc log (c_str buffer) exited_line))
    by_poll true closed e = ap (λ t. (false, t)) (sym (append-nil log))
    by_poll true failed e = rw e refl

watch_lem :
    (before after : List Round) (last : Round) (log : Text)
    → All GoesOn before
    → (sees_end last || is_over last) ≡ true
    → watch (before ++ last ∷ after) log
      ≡ (false, log ++ (all_read before ++ (read_in last ++ last_line last)))
unfolding watch
watch_lem [] after last log go h = rw (watch_round_ends last log h) refl
watch_lem (round ∷ before) after last log go h = rw (watch_round-GoesOn round log go.0) (
    watch_lem before after last (log ++ read_in round) go.1 h
    ∙ ap (λ t. (false, t))
        (append_assoc log (read_in round) (all_read before ++ (read_in last ++ last_line last))
          ∙ ap (λ t. log ++ t)
              (sym
                (append_assoc (read_in round) (all_read before) (read_in last ++ last_line last)))))

-- Where rounds that find nothing amiss are followed by one that ends the watch, the log holds what
-- those rounds have read, at most one read of the last round, and the line on the exit unless the
-- pipe was closed; whatever is in the pipe after that read is in no round that counts, and is lost.
pub run_watchdog_lem :
    (main_pid : ℕ) (before after : List Round) (last : Round)
    → All GoesOn before
    → (sees_end last || is_over last) ≡ true
    → run_watchdog main_pid (before ++ last ∷ after)
      ≡ some (
          (started_line main_pid ++ (all_read before ++ (read_in last ++ last_line last)))
          ++ codes "--- Watchdog Exiting ---\n")
unfolding run_watchdog
run_watchdog_lem main_pid before after last go h =
    rw (watch_lem before after last (started_line main_pid) go h) refl
