-- ===== src/Metrics/Atomics.antt =====
-- The three ways in which the monitors of metrics/ use a `std::atomic<uint64_t>`: `fetch_add`, a test
-- before a `fetch_sub`, and a loop of `compare_exchange_weak` that raises a maximum
-- (metrics/queue_monitor.cpp, metrics/session_monitor.cpp, metrics/feed_health_monitor.cpp).
pub mod Raising
pub mod Races
mod Examples
use datafeed_server.Prelude.{
  ℕ, zero, suc, Bool, true, false, List, [], ◌∷◌, Option, none, some, if◌then◌else◌, ltb, eqb,
  add64, sub64,
}

-- `counter_.fetch_add(1)`, as the new value
unfoldable pub bump : ℕ → ℕ
bump n = add64 n 1

-- `val = depth_.load(); if (val > 0) depth_.fetch_sub(1);`, undisturbed
unfoldable pub drop_one : ℕ → ℕ
drop_one n = if ltb 0 n then sub64 n 1 else n

-- `cell.compare_exchange_weak(expected, desired)`: the new `expected` and the new value. A spurious
-- failure leaves the cell alone also where it holds what was expected.
unfoldable pub compare_exchange : Bool → ℕ → ℕ → ℕ → ℕ × ℕ
compare_exchange spurious expected desired cell =
    if spurious
    then (cell, cell)
    else if eqb expected cell
    then (expected, desired)
    else (cell, cell)

-- does the next exchange fail spuriously? The list says so of the first ones.
unfoldable pub next_failure : List Bool → Bool
next_failure [] = false
next_failure (f ∷ fs) = f

unfoldable pub later_failures : List Bool → List Bool
later_failures [] = []
later_failures (f ∷ fs) = fs

-- `while (depth > max) max_depth_.compare_exchange_weak(max, depth);` on fuel: the last value of the
-- cell, or `none` if the fuel runs out
unfoldable pub raise : ℕ → List Bool → ℕ → ℕ → ℕ → Option ℕ
unfolding compare_exchange next_failure later_failures
raise zero failures depth expected cell = none
raise (suc fuel) failures depth expected cell =
    let (expected', cell') = compare_exchange (next_failure failures) expected depth cell in
    let rest = raise fuel (later_failures failures) depth expected' cell' in
    if ltb expected depth then rest else some cell

-- the loop after `max = max_depth_.load()`
unfoldable pub raise_max : ℕ → List Bool → ℕ → ℕ → Option ℕ
raise_max fuel failures depth cell = raise fuel failures depth cell cell

-- what it comes to (`Raising.raise_max-ends`)
unfoldable pub raised : ℕ → ℕ → ℕ
raised depth cell = if ltb cell depth then depth else cell
