-- ===== src/Metrics/Atomics/Raising.antt =====
-- The loop that raises a maximum ends, also after exchanges that fail spuriously.
use datafeed_server.Prelude.{
  ℕ, zero, suc, ◌+◌, ◌≤◌, ◌≡◌, Bool, true, false, List, [], ◌∷◌, some, arith, length,
}
use datafeed_server.Metrics.Atomics.{raise, raise_max, raised}

-- Where the cell already holds the depth, one more failing exchange ends the loop.
raise_settled :
    (fuel : ℕ) (failures : List Bool) (depth expected : ℕ)
    → 2 ≤ fuel
    → expected ≤ depth
    → raise fuel failures depth expected depth ≡ some depth
unfolding raise
raise_settled zero failures depth expected h k = absurd (omega arith)
raise_settled (suc zero) failures depth expected h k = absurd (omega arith)
raise_settled (suc (suc fuel)) failures depth expected h k = ground arith

-- Whatever exchanges fail spuriously, the loop ends within three rounds more than there are failures, and
-- leaves the larger of the depth and the old maximum.
pub raise_max-ends :
    (failures : List Bool) (fuel depth cell : ℕ)
    → length failures + 3 ≤ fuel
    → raise_max fuel failures depth cell ≡ some (raised depth cell)
unfolding raise_max raised raise
raise_max-ends failures zero depth cell h = absurd (omega arith)
raise_max-ends [] (suc fuel) depth cell h = ground (arith, raise_settled fuel [] depth cell)
raise_max-ends (true ∷ fs) (suc fuel) depth cell h =
    ground (arith, raise_max-ends fs fuel depth cell)
raise_max-ends (false ∷ fs) (suc fuel) depth cell h =
    ground (arith, raise_settled fuel fs depth cell)
