-- ===== src/Database/Statements/Texts.antt =====
-- sadapter.cpp, `prepare_monitoring_statements`: the texts of statements. An INSERT is its table, its columns, the
-- expressions for them and the column that it returns; of another statement only the name and the text
-- matter.
use datafeed_server.Prelude.{ℕ, zero, suc, ◌+◌, String, List, [], ◌∷◌}

pub data Expression : Type 0 where
  -- `$n`
  parameter : ℕ → Expression
  -- `NOW()`
  now : Expression

pub record Insert : Type 0 where
  pub name : String
  pub table : String
  pub columns : List String
  pub values : List Expression
  pub returning : String

pub data Statement : Type 0 where
  insert : Insert → Statement
  other : String → String → Statement

-- `$1` to `$n`
unfoldable pub placeholders_from : ℕ → ℕ → List Expression
placeholders_from k zero = []
placeholders_from k (suc n) = Expression.parameter k ∷ placeholders_from (k + 1) n

unfoldable pub placeholders : ℕ → List Expression
unfolding placeholders_from
placeholders n = placeholders_from 1 n
