-- ===== src/Database/Timestamps.antt =====
-- sadapter.cpp, `timestamp_to_string` and `string_to_timestamp`: the text of a time. `std::put_time` and
-- `std::get_time` with "%Y-%m-%d %H:%M:%S" print and read a date and a time of day, which stand here as the number
-- of the second. The process runs in UTC, so that `std::mktime` is the inverse of `std::gmtime`, and so does
-- the database's session.
use datafeed_server.Prelude.{
  ℕ, zero, suc, ◌+◌, ◌*◌, ◌/◌, ◌%◌, Bool, true, false, List, [], ◌∷◌, ◌++◌, Option, none, some, eqb,
  if◌then◌else◌, ◌&&◌,
}

pub data Character : Type 0 where
  digit : ℕ → Character
  plus : Character

-- the second, and what follows the point, if there is one
pub record TimestampText : Type 0 where
  pub second : ℕ
  pub fraction : List Character

-- with `std::setfill('0') << std::setw(3)`
unfoldable pub timestamp_to_string : ℕ → TimestampText
timestamp_to_string ms = record {
  second = ms / 1000;
  fraction =
      Character.digit (ms % 1000 / 100)
      ∷ Character.digit (ms % 1000 / 10 % 10)
      ∷ Character.digit (ms % 1000 % 10)
      ∷ [];
}

-- `frac.resize(n, '0')`
unfoldable pub resize : ℕ → List Character → List Character
resize zero frac = []
resize (suc n) [] = Character.digit 0 ∷ resize n []
resize (suc n) (c ∷ frac) = c ∷ resize n frac

-- `std::stoi`: it reads up to the first character that is no digit, and throws without a digit
unfoldable pub digits : List Character → ℕ → ℕ
digits (Character.digit d ∷ cs) n = digits cs (n * 10 + d)
digits _ n = n

unfoldable pub stoi : List Character → Option ℕ
unfolding digits
stoi (Character.digit d ∷ cs) = some (digits cs d)
stoi (Character.plus ∷ Character.digit d ∷ cs) = some (digits cs d)
stoi _ = none

unfoldable pub add_millis : ℕ → Option ℕ → Option ℕ
add_millis t none = none
add_millis t (some millis) = some (t + millis)

unfoldable pub fraction_of : ℕ → List Character → Option ℕ
unfolding resize stoi add_millis
fraction_of t [] = some t
fraction_of t (c ∷ frac) = add_millis t (stoi (resize 3 (c ∷ frac)))

unfoldable pub string_to_timestamp : TimestampText → Option ℕ
unfolding fraction_of
string_to_timestamp str = fraction_of (str.second * 1000) str.fraction

-- How PostgreSQL prints a TIMESTAMPTZ that was written so: zeros at the end of the fraction are left out, and the
-- point with them if no digit is left; the zone, "+00", follows.
abbrev is_zero : Character → Bool
is_zero (Character.digit d) = eqb d 0
is_zero Character.plus = false

abbrev ends : List Character → Bool
ends [] = true
ends (c ∷ cs) = false

unfoldable pub trim : List Character → List Character
trim [] = []
trim (c ∷ cs) = let rest = trim cs in if ends rest && is_zero c then [] else c ∷ rest

unfoldable pub with_zone : List Character → List Character
with_zone [] = []
with_zone (c ∷ cs) = (c ∷ cs) ++ (Character.plus ∷ Character.digit 0 ∷ Character.digit 0 ∷ [])

unfoldable pub printed : TimestampText → TimestampText
unfolding trim with_zone
printed str = record str { fraction = with_zone (trim str.fraction) }
