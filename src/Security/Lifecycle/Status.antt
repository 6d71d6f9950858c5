-- ===== src/Security/Lifecycle/Status.antt =====
-- What a round of the status service does to the lockdown.
use mathlib.Core.List.{append_assoc}
use akkon.Base.{
  ℕ, ◌+◌, ◌-◌, ◌≡◌, ◌≢◌, ◌⊎◌, refl, sym, ap, ◌∙◌, true, false, Bool-cases, inl, inr, none, some,
  List, [], ◌∷◌, ◌++◌, All, length, length-append, arith, if◌then◌else◌,
}
use akkon.Base.Text.{Text, codes, text_eq, eq_of_text_eq}
use akkon.Base.Find.{
  find, Absent, Absent-lacking, find-Absent, find-none, starts_with-append, substr-middle,
}
use akkon.Security.{LockdownState, safe, close, immediate}
use akkon.Security.Lifecycle.{
  Lifecycle, write_log, report, append_buffer, receive_all, fetch_status, after_quote, quoted_from,
  field, status_of, new_state, same_state, move_to, apply_status, background_round,
}

abbrev pub quote : Text
quote = codes "\""

abbrev pub status_key : Text
status_key = codes "\"status\":"

-- A response with the status `value`, and `gap` between the colon and the opening quote.
abbrev pub answer : Text → Text → Text → Text → Text
answer before gap value after =
    before ++ (status_key ++ (gap ++ (quote ++ (value ++ (quote ++ after)))))

abbrev pub NoQuote : Text → Type 0
NoQuote = All (λ c. c ≢ b'"')

-- The text between the next two quotes.
field_at-quoted :
    (front gap value after : Text) (pos : ℕ)
    → length front ≡ pos
    → NoQuote gap
    → NoQuote value
    → quoted_from
        (front ++ (gap ++ (quote ++ (value ++ (quote ++ after)))))
        (after_quote (find (front ++ (gap ++ (quote ++ (value ++ (quote ++ after))))) quote pos))
      ≡ value
field_at-quoted front gap value after pos e gap_clean clean =
    rw
      (find-Absent front gap (quote ++ (value ++ (quote ++ after))) quote pos e
        (Absent-lacking b'"' [] gap (quote ++ (value ++ (quote ++ after))) gap_clean)
        (starts_with-append quote (value ++ (quote ++ after))))
      (rw shape (
        rw
          (find-Absent opened value (quote ++ after) quote (pos + length gap + 1) at
            (Absent-lacking b'"' [] value (quote ++ after) clean) (starts_with-append quote after))
          (substr-middle opened value (quote ++ after) (pos + length gap + 1)
            (pos + length gap + 1 + length value - (pos + length gap + 1)) at (omega arith))))
  where
    opened : Text
    opened = front ++ (gap ++ quote)

    shape :
        front ++ (gap ++ (quote ++ (value ++ (quote ++ after))))
        ≡ opened ++ (value ++ (quote ++ after))
    shape = simp append_assoc

    at : length opened ≡ pos + length gap + 1
    at = omega (arith, length-append front (gap ++ quote), length-append gap quote)

status_of-answer :
    (before gap value after : Text)
    → Absent status_key before (status_key ++ (gap ++ (quote ++ (value ++ (quote ++ after)))))
    → NoQuote gap
    → NoQuote value
    → status_of (answer before gap value after) ≡ value
unfolding field
status_of-answer before gap value after first gap_clean clean =
    rw
      (
        field,
        find-Absent [] before (status_key ++ (gap ++ (quote ++ (value ++ (quote ++ after)))))
            status_key 0 refl first
            (starts_with-append status_key (gap ++ (quote ++ (value ++ (quote ++ after))))),
      )
      (rw (sym (append_assoc before status_key (gap ++ (quote ++ (value ++ (quote ++ after)))))) (
        field_at-quoted (before ++ status_key) gap value after (0 + length before + 9)
          (omega (arith, length-append before status_key)) gap_clean clean))

move_to-lockdown :
    (response : Text) (state : LockdownState) (m : Lifecycle)
    → (move_to response state m).lockdown ≡ state
move_to-lockdown response state m = by_state state m.lockdown refl
  where
    by_state :
        (new old : LockdownState)
        → m.lockdown ≡ old
        → (if same_state new old
            then m
            else write_log (report response new) (record m { lockdown = new })).lockdown
          ≡ new
    by_state safe safe e = e
    by_state safe close e = refl
    by_state safe immediate e = refl
    by_state close safe e = refl
    by_state close close e = e
    by_state close immediate e = refl
    by_state immediate safe e = refl
    by_state immediate close e = refl
    by_state immediate immediate e = e

apply_status-lockdown :
    (response : Text) (m : Lifecycle)
    → response ≢ []
    → (apply_status response m).lockdown ≡ new_state (status_of response)
unfolding apply_status
apply_status-lockdown [] m h = absurd (h refl)
apply_status-lockdown (c ∷ response) m h = move_to-lockdown (c ∷ response) _ m

text_ne : (s t : Text) → s ≢ t → text_eq s t ≡ false
text_ne s t h = elim (Bool-cases (text_eq s t)) [
  | inl same ↦ absurd (h (eq_of_text_eq s t same))
  | inr differs ↦ differs
]

-- The lockdown that a status names.
abbrev pub Names : Text → LockdownState → Type 0
Names value state =
    ((value ≡ codes "IMMEDIATE") × (state ≡ immediate))
    ⊎ ((value ≡ codes "CLOSE") × (state ≡ close))
    ⊎ ((value ≢ codes "IMMEDIATE") × (value ≢ codes "CLOSE") × (state ≡ safe))

Names-new_state :
    (value : Text) (state : LockdownState) → Names value state → new_state value ≡ state
unfolding new_state
Names-new_state value state (inl (e, s)) = ap new_state e ∙ sym s
Names-new_state value state (inr (inl (e, s))) = ap new_state e ∙ sym s
Names-new_state value state (inr (inr (a, b, s))) =
    rw (new_state, text_ne value (codes "IMMEDIATE") a, text_ne value (codes "CLOSE") b) (sym s)

-- A response in which the first `"status":` is followed by the quoted text `value`, perhaps after
-- some space, sets the lockdown that `value` names, whatever it was before: immediate for IMMEDIATE,
-- close for CLOSE, and safe for any other text.
pub apply_status-answer :
    (before gap value after : Text) (state : LockdownState) (m : Lifecycle)
    → Absent status_key before (status_key ++ (gap ++ (quote ++ (value ++ (quote ++ after)))))
    → NoQuote gap
    → NoQuote value
    → Names value state
    → (apply_status (answer before gap value after) m).lockdown ≡ state
apply_status-answer before gap value after state m first gap_clean clean names =
    apply_status-lockdown (answer before gap value after) m (λ e. filled (ap length e))
    ∙ ap new_state (status_of-answer before gap value after first gap_clean clean)
    ∙ Names-new_state value state names
  where
    filled : length (answer before gap value after) ≢ 0
    filled e = omega (
      arith,
      e,
      length-append before (status_key ++ (gap ++ (quote ++ (value ++ (quote ++ after))))),
    )

-- A response that is not empty and has no `"status":`, such as an error page, lifts any lockdown.
pub apply_status-missing :
    (response : Text) (m : Lifecycle)
    → response ≢ []
    → Absent status_key response []
    → (apply_status response m).lockdown ≡ safe
unfolding field new_state
apply_status-missing response m filled missing =
    apply_status-lockdown response m filled
    ∙ rw (field, find-none [] response status_key 0 refl missing refl) refl

-- A piece that fills the buffer and has no zero byte is read past the end of the buffer.
append_buffer-full :
    (response piece : Text) (room : ℕ)
    → length piece ≡ room
    → All (λ c. c ≢ 0) piece
    → append_buffer response room piece ≡ none
unfolding append_buffer
append_buffer-full response [] room e h = rw (append_buffer, sym e) refl
append_buffer-full response (c ∷ piece) room e h =
    ground (arith, h.0, append_buffer-full (response ++ c ∷ []) piece (room - 1) (omega arith) h.1)

-- Where the first piece of a response has 4096 bytes and none is zero, the running service reads
-- past the end of its buffer, whatever follows.
pub background_round-full :
    (piece : Text) (pieces : List Text) (m : Lifecycle)
    → m.running ≡ true
    → length piece ≡ 4096
    → All (λ c. c ≢ 0) piece
    → background_round (some (piece ∷ pieces)) m ≡ none
unfolding background_round fetch_status receive_all
background_round-full piece pieces m on size clean =
    rw (background_round, on, receive_all, append_buffer-full [] piece 4096 size clean) refl
