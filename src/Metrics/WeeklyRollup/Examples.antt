-- ===== src/Metrics/WeeklyRollup/Examples.antt =====
-- A week of the rollup of metrics/weekly_rollup.cpp, and the theorems at it.
use datafeed_server.Prelude.{ℕ, ◌+◌, ◌*◌, ◌/◌, ◌%◌, ◌≤◌, ◌<◌, true, List, [], ◌∷◌, ◌≡◌, refl, arith}
use datafeed_server.Metrics.LatencyTracker.WholeNumbers.{whole_numbers}
use datafeed_server.Database.Metrics.{no_metrics}
use datafeed_server.Database.Adapter.{SAdapter, Condition, get_feed_metrics_snapshots_by_condition}
use datafeed_server.Database.Store.{listed}
use datafeed_server.Metrics.WeeklyRollup.{week_start, init, is_new_week, summary_of}
use datafeed_server.Metrics.WeeklyRollup.Weeks.{check_all, last_of, checks-find_each_week}
use datafeed_server.Metrics.WeeklyRollup.Emptiness.{summary_of-blank}

abbrev empty : SAdapter listed
empty = record { is_connected = true; tables = [] }

abbrev condition : Condition
condition = record { instance_id = "live-1"; from_second = 345600; to_second = 950400 }

summary_of-blank_example :
    (summary_of whole_numbers "live-1" 950400
      (get_feed_metrics_snapshots_by_condition listed condition empty)).metrics
    ≡ no_metrics
summary_of-blank_example = summary_of-blank whole_numbers listed "live-1" 950400 condition empty

-- from a Wednesday: the next checks are in its week, at its end and in the next week
abbrev times : List ℕ
times = 600000 ∷ 950400 ∷ 1500000 ∷ 1600000 ∷ []

new_weeks : (check_all (518400 ∷ times) init).0 ≡ 2
unfolding check_all init is_new_week
new_weeks = refl

checks-find_each_week_example :
    (week_start 518400 + 604800 * (check_all (518400 ∷ times) init).0
      ≡ (check_all (518400 ∷ times) init).1.last_week_start)
    × ((check_all (518400 ∷ times) init).1.last_week_start ≤ last_of 518400 times)
    × (last_of 518400 times < (check_all (518400 ∷ times) init).1.last_week_start + 604800)
    × (((check_all (518400 ∷ times) init).1.last_week_start / 86400 + 4) % 7 ≡ 1)
    × ((check_all (518400 ∷ times) init).1.last_week_start % 86400 ≡ 0)
checks-find_each_week_example = checks-find_each_week 518400 times (omega arith) (omega arith)
