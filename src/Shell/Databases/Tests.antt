-- ===== src/Shell/Databases/Tests.antt =====
-- A run on a registry of one database.
use akkon.Base.{ℕ, zero, suc}
use akkon.Base.Text.{Text, codes}

-- The identifiers and times that the rounds draw.
abbrev drawn : ℕ → Text × Text
drawn zero = (codes "b2", codes "now")
drawn (suc i) = (codes "c3", codes "later")
