-- ===== src/Security/Lifecycle/Tests.antt =====
-- Answers of the status service to a running server in a lockdown.
use akkon.Base.{◌≡◌, refl, inl, inr, true, [], ◌++◌}
use akkon.Base.Text.{codes}
use akkon.Base.Find.{absent-Absent, lacks-All}
use akkon.Security.{immediate, close}
use akkon.Security.Lifecycle.{Lifecycle, apply_status}
use akkon.Security.Lifecycle.Status.{quote, status_key, answer, apply_status-answer}

abbrev locked : Lifecycle
locked = record { running = true; has_worker = true; lockdown = immediate; messages = [] }

apply_status-answer_example :
    (apply_status (answer (codes "{") (codes " ") (codes "CLOSE") (codes "}")) locked).lockdown
    ≡ close
apply_status-answer_example =
    apply_status-answer (codes "{") (codes " ") (codes "CLOSE") (codes "}") close locked
      (absent-Absent status_key (codes "{")
        (status_key ++ (codes " " ++ (quote ++ (codes "CLOSE" ++ (quote ++ codes "}"))))) refl)
      (lacks-All b'"' (codes " ") refl) (lacks-All b'"' (codes "CLOSE") refl)
      (inr (inl (refl, refl)))
