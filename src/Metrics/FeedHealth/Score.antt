-- ===== src/Metrics/FeedHealth/Score.antt =====
-- What the score and the status of metrics/feed_health_monitor.cpp say of the faults that were reported.
use datafeed_server.Prelude.{
  ℕ, suc, ◌+◌, ◌<◌, ◌≤◌, ◌≡◌, refl, ◌∙◌, ap, sym, ◌||◌, Bool, false, List, [], ◌∷◌, arith, u64_mod,
  if◌then◌else◌, ltb, leb,
}
use datafeed_server.Metrics.FeedHealth.{
  HealthStatus, FeedHealth, Call, reset, step, run, total_issues, score_of, get_stats,
}

-- the number of faults among the calls, and the last mark of the feed
unfoldable pub faults : List Call → ℕ
faults [] = 0
faults (Call.mark_stale stale ∷ cs) = faults cs
faults (c ∷ cs) = suc (faults cs)

unfoldable pub stale_after : List Call → Bool → Bool
stale_after [] b = b
stale_after (Call.mark_stale stale ∷ cs) b = stale_after cs stale
stale_after (c ∷ cs) b = stale_after cs b

-- the sum of the counters, not wrapped
unfoldable pub sum_of : FeedHealth → ℕ
sum_of h =
    h.packet_drops + h.duplicate_packets + h.out_of_order_packets + h.sequence_gaps
    + h.missing_ticks + h.invalid_messages + h.corrupted_packets + h.parse_failures

sum_of-step :
    (c : Call) (h : FeedHealth)
    → sum_of h + 1 < u64_mod
    → (sum_of (step c h) ≡ sum_of h + faults (c ∷ []))
      × ((step c h).stale_feed ≡ stale_after (c ∷ []) h.stale_feed)
unfolding sum_of step faults stale_after
sum_of-step Call.packet_drop h k = (omega arith, refl)
sum_of-step Call.duplicate_packet h k = (omega arith, refl)
sum_of-step Call.out_of_order_packet h k = (omega arith, refl)
sum_of-step Call.sequence_gap h k = (omega arith, refl)
sum_of-step Call.missing_tick h k = (omega arith, refl)
sum_of-step Call.invalid_message h k = (omega arith, refl)
sum_of-step Call.corrupted_packet h k = (omega arith, refl)
sum_of-step Call.parse_failure h k = (omega arith, refl)
sum_of-step (Call.mark_stale b) h k = (omega arith, refl)

faults-cons : (c : Call) (cs : List Call) → faults (c ∷ cs) ≡ faults (c ∷ []) + faults cs
unfolding faults
faults-cons (Call.mark_stale b) cs = omega arith
faults-cons Call.packet_drop cs = omega arith
faults-cons c cs = omega arith

faults-one-le : (c : Call) → faults (c ∷ []) ≤ 1
unfolding faults
faults-one-le (Call.mark_stale b) = omega arith
faults-one-le Call.packet_drop = omega arith
faults-one-le c = omega arith

stale_after-cons :
    (c : Call) (cs : List Call) (b : Bool)
    → stale_after (c ∷ cs) b ≡ stale_after cs (stale_after (c ∷ []) b)
unfolding stale_after
stale_after-cons (Call.mark_stale s) cs b = refl
stale_after-cons Call.packet_drop cs b = refl
stale_after-cons c cs b = refl

sum_of-run :
    (cs : List Call) (h : FeedHealth)
    → sum_of h + faults cs + 1 < u64_mod
    → (sum_of (run cs h) ≡ sum_of h + faults cs)
      × ((run cs h).stale_feed ≡ stale_after cs h.stale_feed)
unfolding run
sum_of-run [] h k = unfold faults stale_after in (omega arith, refl)
sum_of-run (c ∷ cs) h k =
    let one = sum_of-step c h (omega arith) in
    let (sum, stale) = sum_of-run cs (step c h) (omega (arith, faults-cons c cs, one.0)) in
    (
      omega (arith, faults-cons c cs, one.0, sum),
      stale ∙ ap (stale_after cs) one.1 ∙ sym (stale_after-cons c cs h.stale_feed),
    )

sum_of-reset : (sum_of reset ≡ 0) × (reset.stale_feed ≡ false)
unfolding sum_of reset
sum_of-reset = (refl, refl)

total_issues-sum_of : (h : FeedHealth) → sum_of h < u64_mod → total_issues h ≡ sum_of h
unfolding total_issues sum_of
total_issues-sum_of h k = omega arith

-- Of the fault counts, the score: 100 to 10 faults, 75 to 50, 50 to 100, 25 to 1000, and then 0.
abbrev pub status_of : Bool → ℕ → HealthStatus
status_of stale n =
    if stale || ltb 1000 n
    then HealthStatus.critical
    else if ltb 50 n
    then HealthStatus.degraded
    else HealthStatus.healthy

-- the score and the status, as functions of the flag and the total
score_by : Bool → ℕ → ℕ
score_by stale total = if stale then 0 else score_of total

status_by : Bool → ℕ → HealthStatus
status_by stale total =
    if stale
    then HealthStatus.critical
    else if leb 75 (score_by stale total)
    then HealthStatus.healthy
    else if leb 25 (score_by stale total)
    then HealthStatus.degraded
    else HealthStatus.critical

status_by_lem : (stale : Bool) (total : ℕ) → status_by stale total ≡ status_of stale total
unfolding status_by score_by score_of
status_by_lem stale total = ground arith

get_stats-by :
    (h : FeedHealth)
    → ((get_stats h).health_score ≡ score_by h.stale_feed (total_issues h))
      × ((get_stats h).status ≡ status_by h.stale_feed (total_issues h))
unfolding get_stats score_by status_by
get_stats-by h = (refl, refl)

total_issues-run :
    (cs : List Call)
    → faults cs + 1 < u64_mod
    → (total_issues (run cs reset) ≡ faults cs) × ((run cs reset).stale_feed ≡ stale_after cs false)
total_issues-run cs k =
    let after = sum_of-run cs reset (rw sum_of-reset.0 (omega arith)) in
    (
      total_issues-sum_of (run cs reset) (omega (arith, after.0, sum_of-reset.0))
          ∙ omega (arith, after.0, sum_of-reset.0),
      after.1 ∙ ap (stale_after cs) sum_of-reset.1,
    )

-- After any calls from a reset on, with fewer than 2 ^ 64 - 1 faults among them, the statistics give the
-- score of the number of faults, or 0 if the feed was last marked stale; and the status is critical if it
-- was or there are over 1000 faults, degraded from 51 on, and healthy to 50 faults.
pub get_stats-run :
    (cs : List Call)
    → faults cs + 1 < u64_mod
    → ((get_stats (run cs reset)).health_score
        ≡ (if stale_after cs false then 0 else score_of (faults cs)))
      × ((get_stats (run cs reset)).status ≡ status_of (stale_after cs false) (faults cs))
unfolding score_by
get_stats-run cs k =
    let now = total_issues-run cs k in
    let stats = get_stats-by (run cs reset) in
    (
      stats.0 ∙ rw (now.0, now.1),
      stats.1 ∙ rw (now.0, now.1) (status_by_lem (stale_after cs false) (faults cs)),
    )

-- The score never rises when a fault is reported.
pub score_of-antitone : (m n : ℕ) → m ≤ n → score_of n ≤ score_of m
unfolding score_of
score_of-antitone m n h = ground arith
