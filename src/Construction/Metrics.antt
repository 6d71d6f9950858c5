-- ===== src/Construction/Metrics.antt =====
-- A row of the metrics, as src/main.cpp passes it to `MasterDB::insertMetrics`.
use akkon.Base.{ℕ, ◌+◌, ◌++◌}
use akkon.Base.Int.{ℤ, pos, negsuc}
use akkon.Base.Text.{Text, codes}
use akkon.Base.Decimal.{to_string}

pub record Metrics : Type 0 where
  pub timestamp : Text
  pub ram_allocated : ℕ
  pub ram_runtime : ℕ
  pub ram_request : ℕ
  pub ram_capacity : ℕ
  pub disk_space : ℕ
  pub reliability : ℤ
  pub total_queries : ℕ

-- `std::to_string` of an `int`.
abbrev pub int_text : ℤ → Text
int_text (pos n) = to_string n
int_text (negsuc n) = codes "-" ++ to_string (n + 1)
