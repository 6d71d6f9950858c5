-- ===== src/Security/Lifecycle.antt =====
-- `LifecycleManager` of src/security/LifecycleManager.cpp: the status service and the lockdown.
-- `recv`, the clock and the thread are the system's: a round gets the pieces that were received.
pub mod Status
mod Tests
use akkon.Base.{
  ℕ, ◌+◌, ◌-◌, Bool, true, false, Option, none, some, List, [], ◌∷◌, ◌++◌, if◌then◌else◌, length,
  ltb, ◌==◌,
}
use akkon.Base.Text.{Text, codes, text_eq}
use akkon.Base.Find.{find, substr}
use akkon.Security.{LockdownState, safe, close, immediate}

pub record Lifecycle : Type 0 where
  pub running : Bool
  pub has_worker : Bool
  pub lockdown : LockdownState
  pub messages : List Text

abbrev pub write_log : Text → Lifecycle → Lifecycle
write_log message m = record m { messages = m.messages ++ message ∷ [] }

pub start : Lifecycle → Lifecycle
start m =
    if m.running
    then m
    else write_log (codes "LifecycleManager started. Monitoring vulnerabilities.")
        (record m { running = true; has_worker = true })

-- The worker ends when it sees the flag, and is joined.
pub stop : Lifecycle → Lifecycle
stop m = record m { running = false; has_worker = false }

pub trigger_lockdown : LockdownState → Lifecycle → Lifecycle
trigger_lockdown state m =
    write_log (codes "CRITICAL: Manual Lockdown Triggered!") (record m { lockdown = state })

-- `response += buffer`, for a buffer of 4096 zero bytes that was received into: the bytes up to the
-- first zero; `none` reads beyond the buffer, where all its bytes are used and none is zero.
pub append_buffer : Text → ℕ → Text → Option Text
append_buffer response room [] = if room == 0 then none else some response
append_buffer response room (c ∷ piece) =
    let rest = append_buffer (response ++ c ∷ []) (room - 1) piece in
    if c == 0 then some response else rest

-- `fetchVulnerabilityStatus`: the pieces that `recv` gives, of at most 4096 bytes each; `none` for
-- them is a failure to connect.
pub receive_all : Text → List Text → Option Text
receive_all response [] = some response
receive_all response (piece ∷ pieces) = elim (append_buffer response 4096 piece) [
  | none ↦ none
  | some longer ↦ receive_all longer pieces
]

pub fetch_status : Option (List Text) → Option Text
fetch_status none = some []
fetch_status (some pieces) = receive_all [] pieces

-- `response.find("\"", pos) + 1`, which is 0 where there is no quote.
abbrev pub after_quote : Option ℕ → ℕ
after_quote none = 0
after_quote (some at) = at + 1

-- `response.substr(start, end - start)`; without a closing quote the count is past the end.
abbrev pub up_to : Text → ℕ → Option ℕ → Text
up_to response start none = substr response start (length response)
up_to response start (some end) = substr response start (end - start)

abbrev pub quoted_from : Text → ℕ → Text
quoted_from response start = up_to response start (find response (codes "\"") start)

abbrev pub field_at : Text → ℕ → Text → Option ℕ → Text
field_at response size missing none = missing
field_at response size missing (some pos) =
    quoted_from response (after_quote (find response (codes "\"") (pos + size)))

-- The text behind a key, or the other text where the key is missing.
unfoldable pub field : Text → Text → Text → Text
field response key missing = field_at response (length key) missing (find response key 0)

abbrev pub status_of : Text → Text
status_of response = field response (codes "\"status\":") (codes "SAFE")

pub new_state : Text → LockdownState
new_state state_str =
    if text_eq state_str (codes "IMMEDIATE")
    then immediate
    else if text_eq state_str (codes "CLOSE")
    then close
    else safe

abbrev pub same_state : LockdownState → LockdownState → Bool
same_state safe safe = true
same_state safe close = false
same_state safe immediate = false
same_state close safe = false
same_state close close = true
same_state close immediate = false
same_state immediate safe = false
same_state immediate close = false
same_state immediate immediate = true

abbrev pub report : Text → LockdownState → Text
report response safe = codes "System returned to SAFE state."
report response close =
    codes "VULNERABILITY DETECTED! "
    ++ (field response (codes "\"cve\":") []
        ++ (codes " - "
            ++ (field response (codes "\"message\":") []
                ++ codes " -> LOCKDOWN: "
                ++ status_of response)))
report response immediate =
    codes "VULNERABILITY DETECTED! "
    ++ (field response (codes "\"cve\":") []
        ++ (codes " - "
            ++ (field response (codes "\"message\":") []
                ++ codes " -> LOCKDOWN: "
                ++ status_of response)))

abbrev pub move_to : Text → LockdownState → Lifecycle → Lifecycle
move_to response state m =
    if same_state state m.lockdown
    then m
    else write_log (report response state) (record m { lockdown = state })

-- A response that is not empty.
pub apply_status : Text → Lifecycle → Lifecycle
apply_status [] m = m
apply_status (c ∷ cs) m = move_to (c ∷ cs) (new_state (status_of (c ∷ cs))) m

-- One round of `backgroundTask` after its sleep; `false` is the end of the loop, and `none` the
-- undefined behaviour of the fetch.
abbrev pub apply_fetched : Option Text → Lifecycle → Option (Bool × Lifecycle)
apply_fetched none m = none
apply_fetched (some response) m = some (true, apply_status response m)

pub background_round : Option (List Text) → Lifecycle → Option (Bool × Lifecycle)
background_round pieces m =
    if m.running then apply_fetched (fetch_status pieces) m else some (false, m)
