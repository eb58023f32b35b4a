-- ===== src/Database/ReadBack/Stored.antt =====
-- sadapter.cpp: a value that was bound to a parameter, and a row that was inserted.
use datafeed_server.Prelude.{String, List, [], ◌∷◌, Option, none, some, ◌≡◌, refl, string_key}
use datafeed_server.Prelude.Int.{ℤ}
use datafeed_server.Database.Timestamps.{printed}
use datafeed_server.Database.Values.{
  Value, Row, append_double, append_int64, append_string, double_of, int64_of, string_of, row_of,
}

module _ {D : Type 0} where
  -- a column's text, as PostgreSQL prints it for a result; only a time's text matters here
  unfoldable pub printed_value : Value D → Value D
  printed_value (Value.timestamp t) = Value.timestamp (printed t)
  printed_value v = v

  unfoldable pub printed_values : List (Value D) → List (Value D)
  unfolding printed_value
  printed_values [] = []
  printed_values (v ∷ vs) = printed_value v ∷ printed_values vs

  -- The row of an INSERT with the identity that it was given, as a SELECT returns it.
  unfoldable pub stored : ℤ → List String → List (Value D) → Row D
  unfolding row_of printed_values
  stored id columns values = ("id", Value.int id) ∷ row_of columns (printed_values values)

  pub double-back : (o : Option D) → double_of (some (printed_value (append_double o))) ≡ o
  unfolding double_of append_double printed_value
  double-back none = refl
  double-back (some x) = refl

pub int64-back :
    (D : Type 0) (o : Option ℤ) → int64_of {D = D} (some (printed_value (append_int64 o))) ≡ o
unfolding int64_of append_int64 printed_value
int64-back D none = refl
int64-back D (some n) = refl

pub string-back :
    (D : Type 0) (o : Option String)
    → string_of {D = D} (some (printed_value (append_string o))) ≡ o
unfolding string_of append_string printed_value
string-back D none = refl
string-back D (some n) = refl
