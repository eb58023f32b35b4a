-- ===== src/Database/ReadBack/Times.antt =====
-- sadapter.cpp: what `string_to_timestamp` makes of a time that `timestamp_to_string` wrote.
use datafeed_server.Prelude.{
  ℕ, [], ◌∷◌, ◌+◌, ◌*◌, ◌/◌, ◌%◌, some, eqb, if◌then◌else◌, ◌≡◌, refl, ap, arith, inl, inr,
  Bool-cases, ◌∙◌,
}
use datafeed_server.Database.Timestamps.{
  Character, timestamp_to_string, string_to_timestamp, printed, trim, with_zone, fraction_of,
  add_millis, resize, stoi, digits,
}

-- The milliseconds lose the zeros at their end: half a second is read as 5 ms.
unfoldable pub misread : ℕ → ℕ
misread t =
    t / 1000 * 1000
    + (if eqb (t % 10) 0
        then if eqb (t % 100) 0 then t % 1000 / 100 else t % 1000 / 10
        else t % 1000)

-- three digits without the zeros at their end
shortened : ℕ → ℕ → ℕ → ℕ
shortened a b c = if eqb c 0 then if eqb b 0 then a else a * 10 + b else (a * 10 + b) * 10 + c

fraction_of-digits :
    (t a b c : ℕ)
    → fraction_of t
        (with_zone (trim (Character.digit a ∷ Character.digit b ∷ Character.digit c ∷ [])))
      ≡ some (t + shortened a b c)
unfolding trim with_zone fraction_of add_millis resize stoi digits shortened
fraction_of-digits t a b c = elim (Bool-cases (eqb c 0)) [
  | inl p ↦ elim (Bool-cases (eqb b 0)) [
    | inl q ↦ elim (Bool-cases (eqb a 0)) [
      | inl r ↦ rw (p, q, r) (ap some (ground arith))
      | inr r ↦ rw (p, q, r) refl
    ]
    | inr q ↦ rw (p, q) refl
  ]
  | inr p ↦ rw p refl
]

shortened_lem :
    (t : ℕ)
    → t / 1000 * 1000 + shortened (t % 1000 / 100) (t % 1000 / 10 % 10) (t % 1000 % 10) ≡ misread t
unfolding shortened misread
shortened_lem t = ground arith

pub string_to_timestamp-printed :
    (t : ℕ) → string_to_timestamp (printed (timestamp_to_string t)) ≡ some (misread t)
unfolding string_to_timestamp printed timestamp_to_string
string_to_timestamp-printed t =
    fraction_of-digits (t / 1000 * 1000) (t % 1000 / 100) (t % 1000 / 10 % 10) (t % 1000 % 10)
    ∙ ap some (shortened_lem t)
