-- ===== src/Metrics/FeedHealth/Examples.antt =====
-- A feed with three faults that goes stale, and the theorems of metrics/feed_health_monitor.cpp at it.
use datafeed_server.Prelude.{◌≡◌, refl, true, false, List, [], ◌∷◌, arith, if◌then◌else◌}
use datafeed_server.Metrics.Atomics.{bump}
use datafeed_server.Metrics.FeedHealth.{
  Call, reset, step, run, get_stats, score_of, calculate_health_score, total_issues,
}
use datafeed_server.Metrics.FeedHealth.Score.{faults, stale_after, status_of, get_stats-run}

abbrev reports : List Call
reports =
    Call.packet_drop
    ∷ Call.mark_stale true
    ∷ Call.parse_failure
    ∷ Call.mark_stale false
    ∷ Call.sequence_gap
    ∷ []

score_of_reports : calculate_health_score (run reports reset) ≡ 100
unfolding run step reset calculate_health_score total_issues score_of bump
score_of_reports = refl

get_stats-run_example :
    ((get_stats (run reports reset)).health_score
      ≡ (if stale_after reports false then 0 else score_of (faults reports)))
    × ((get_stats (run reports reset)).status
        ≡ status_of (stale_after reports false) (faults reports))
get_stats-run_example = get_stats-run reports (unfold faults in omega arith)
