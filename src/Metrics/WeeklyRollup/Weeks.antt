-- ===== src/Metrics/WeeklyRollup/Weeks.antt =====
-- Which weeks metrics/weekly_rollup.cpp processes.
use datafeed_server.Prelude.{
  ℕ, suc, ◌+◌, ◌-◌, ◌*◌, ◌/◌, ◌%◌, ◌≤◌, ◌<◌, ◌≡◌, refl, ap, ◌∙◌, ◌⊎◌, inl, inr, true, false, List,
  [], ◌∷◌, if◌then◌else◌, arith,
}
use datafeed_server.Metrics.WeeklyRollup.{WeeklyRollup, init, week_start, is_new_week}

-- the checks at some times: how many of them found a new week
unfoldable pub check_all : List ℕ → WeeklyRollup → ℕ × WeeklyRollup
check_all [] w = (0, w)
check_all (now ∷ times) w =
    let (new, w') = is_new_week now w in
    let (n, end) = check_all times w' in (if new then suc n else n, end)

-- Each time is at most a week after the one before.
abbrev pub Follow : ℕ → List ℕ → Type 0
Follow p [] = Unit {0}
Follow p (now ∷ times) = (p ≤ now) × (now ≤ p + 604800) × Follow now times

unfoldable pub last_of : ℕ → List ℕ → ℕ
last_of p [] = p
last_of p (now ∷ times) = last_of now times

week_start_lem :
    (now : ℕ) → 345600 ≤ now → week_start now ≡ 345600 + 604800 * ((now - 345600) / 604800)
unfolding week_start
week_start_lem now h = omega arith

week_start-next :
    (p now : ℕ)
    → 345600 ≤ p
    → p ≤ now
    → now ≤ p + 604800
    → (week_start now ≡ week_start p) ⊎ (week_start now ≡ week_start p + 604800)
week_start-next p now h k l = ground (arith, week_start_lem p h, week_start_lem now)

abbrev at_week : ℕ → WeeklyRollup
at_week start = record { last_week_start = start; has_last_week = true }

same_week :
    (start now : ℕ)
    → week_start now ≡ start
    → is_new_week now (at_week start) ≡ (false, at_week start)
unfolding is_new_week
same_week start now e = ground arith

next_week :
    (start now : ℕ)
    → week_start now ≡ start + 604800
    → is_new_week now (at_week start) ≡ (true, at_week (start + 604800))
unfolding is_new_week
next_week start now e = ground arith

check_all-weeks :
    (times : List ℕ) (p start : ℕ)
    → week_start p ≡ start
    → 345600 ≤ p
    → Follow p times
    → ((check_all times (at_week start)).1 ≡ at_week (week_start (last_of p times)))
      × (start + 604800 * (check_all times (at_week start)).0 ≡ week_start (last_of p times))
unfolding check_all last_of
check_all-weeks [] p start s h f = (rw s refl, omega (arith, s))
check_all-weeks (now ∷ times) p start s h f = elim (week_start-next p now h f.0 f.1) [
  | inl e ↦
      let w : week_start now ≡ start = e ∙ s in
      let rest = check_all-weeks times now start w (omega arith) f.2 in
      rw (same_week start now w) rest
  | inr e ↦
      let w : week_start now ≡ start + 604800 = omega (arith, e, s) in
      let rest = check_all-weeks times now (start + 604800) w (omega arith) f.2 in
      rw (next_week start now w) (rest.0, omega (arith, rest.1))
]

week_start_bounds :
    (now : ℕ)
    → 345600 ≤ now
    → (week_start now ≤ now)
      × (now < week_start now + 604800)
      × ((week_start now / 86400 + 4) % 7 ≡ 1)
      × (week_start now % 86400 ≡ 0)
week_start_bounds now h =
    let e = week_start_lem now h in (omega arith, omega arith, omega arith, omega arith)

last_of-le : (p : ℕ) (times : List ℕ) → 345600 ≤ p → Follow p times → 345600 ≤ last_of p times
unfolding last_of
last_of-le p [] h f = h
last_of-le p (now ∷ times) h f = last_of-le now times (omega arith) f.2

-- Where each check comes at most a week after the one before, from the first Monday of 1970 on, the checks find a new
-- week once for each week that begins after the first check: they miss none and find none twice; and what
-- they then keep is the Monday, at 00:00 UTC, of the week of the last check.
pub checks-find_each_week :
    (first : ℕ) (times : List ℕ)
    → 345600 ≤ first
    → Follow first times
    → (week_start first + 604800 * (check_all (first ∷ times) init).0
        ≡ (check_all (first ∷ times) init).1.last_week_start)
      × ((check_all (first ∷ times) init).1.last_week_start ≤ last_of first times)
      × (last_of first times < (check_all (first ∷ times) init).1.last_week_start + 604800)
      × (((check_all (first ∷ times) init).1.last_week_start / 86400 + 4) % 7 ≡ 1)
      × ((check_all (first ∷ times) init).1.last_week_start % 86400 ≡ 0)
unfolding check_all init is_new_week
checks-find_each_week first times h f =
    let weeks = check_all-weeks times first (week_start first) refl h f in
    let kept : (check_all times (at_week (week_start first))).1.last_week_start
        ≡ week_start (last_of first times) =
      ap (λ w. w.last_week_start) weeks.0 in
    let bounds = week_start_bounds (last_of first times) (last_of-le first times h f) in
    rw kept (weeks.1, bounds.0, bounds.1, bounds.2, bounds.3)
