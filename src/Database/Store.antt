-- ===== src/Database/Store.antt =====
-- A database that keeps lists of rows, for the examples: it does what is asked of PostgreSQL, and takes every row of
-- a table for one that a condition asks for.
use datafeed_server.Prelude.{
  ℕ, Bool, true, false, String, List, [], ◌∷◌, ◌++◌, Option, none, some, ◌≡◌, refl, if◌then◌else◌,
  length, eqb, arith, string_key, insert, find_or,
}
use datafeed_server.Prelude.Int.{ℤ, pos}
use datafeed_server.Database.Values.{Value, Row, row_of}
use datafeed_server.Database.Statements.{Statement, Insert}
use datafeed_server.Database.Adapter.{Postgres}

abbrev pub matches : Statement → Bool
matches (Statement.insert i) = eqb (length i.columns) (length i.values)
matches (Statement.other name query) = true

abbrev pub Listed : Type 0
Listed = List (String × List (Row ℕ))

pub add_row : Insert → List (Value ℕ) → Listed → Option (Option ℤ × Listed)
unfolding row_of insert find_or
add_row i values t =
    if matches (Statement.insert i)
    then (let rows = find_or [] i.table t in
        let id = pos (length rows) in
        some (
          some id,
          insert i.table (rows ++ ((("id", Value.int id) ∷ row_of i.columns values) ∷ [])) t,
        ))
    else none

pub matches-lengths :
    (i : Insert) → matches (Statement.insert i) ≡ true → length i.columns ≡ length i.values
matches-lengths i h = ground arith

pub add_row-refused :
    (i : Insert) (values : List (Value ℕ)) (t : Listed)
    → matches (Statement.insert i) ≡ false
    → add_row i values t ≡ none
unfolding add_row
add_row-refused i values t h = rw h refl

abbrev pub listed : Postgres ℕ
listed = record {
  Tables = Listed;
  accepts = matches;
  asked_at_once = true;
  exec_insert = add_row;
  select = λ table condition t. some (find_or [] table t);
  delete_before = λ table column before t. some (pos 0, t);
  accepts_matching = matches-lengths;
  exec_refused = add_row-refused;
}
