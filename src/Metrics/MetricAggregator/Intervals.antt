-- ===== src/Metrics/MetricAggregator/Intervals.antt =====
-- The classes StateManager and MetricAggregator (metrics/state_manager.cpp, metrics/metric_aggregator.cpp) together:
-- what the callback is given.
use datafeed_server.Prelude.{
  ◌+◌, ◌<◌, u64_mod, ◌≡◌, refl, sym, ap, subst, ◌∙◌, Bool, true, false, List, [], ◌∷◌, ◌++◌, map,
  length, length-append, arith, ℕ,
}
use datafeed_server.Metrics.LatencyTracker.{DoubleArithmetic}
use datafeed_server.Metrics.Snapshot.{Snapshot, blank}
use datafeed_server.Metrics.StateManager as Manager
use datafeed_server.Metrics.StateManager.{Event}
use datafeed_server.Metrics.StateManager.Accounts.{
  Ledger, empty_ledger, enter_all, aggregate, all_of, summaries_of,
}
use datafeed_server.Metrics.StateManager.Runs.{run-init-Accounts}
use datafeed_server.Metrics.MetricAggregator.{
  MetricAggregator, init, reset_running, produce_summary, add_all,
}
use datafeed_server.Metrics.MetricAggregator.Summaries.{IsSummary, entries, produce_summary-add_all}
use datafeed_server.Metrics.MetricAggregator.Forgetting.{metric_aggregation, produce_summary-reset}

module _ (arithmetic : DoubleArithmetic) where
  open arithmetic use {Double, zero_double}

  -- the entries on exchanges in some snapshots
  abbrev pub exchange_entries : List (Snapshot Double) → ℕ
  exchange_entries ss = entries (map (λ s. s.exchange_stats) ss)

  -- what an interval's summary says: of one without snapshots, it is blank
  unfoldable pub Tells : List (Snapshot Double) → Snapshot Double → Type 0
  Tells [] out = out ≡ blank zero_double
  Tells (first ∷ rest) out = IsSummary arithmetic first rest out

  -- The summaries are those of the intervals whose summary was delivered, in order.
  pub data Reported : List (Bool × List (Snapshot Double)) → List (Snapshot Double) → Type 0 where
    none_closed : Reported [] []
    dropped :
        {ss : List (Snapshot Double)} {closed : List (Bool × List (Snapshot Double))}
        {outs : List (Snapshot Double)}
        → Reported closed outs
        → Reported ((false, ss) ∷ closed) outs
    delivered :
        {ss : List (Snapshot Double)} {closed : List (Bool × List (Snapshot Double))}
        {out : Snapshot Double} {outs : List (Snapshot Double)}
        → Tells ss out
        → Reported closed outs
        → Reported ((true, ss) ∷ closed) (out ∷ outs)

  aggregate-add_all :
      (ss : List (Snapshot Double)) (a : MetricAggregator Double)
      → add_all arithmetic ss a ≡ aggregate (metric_aggregation arithmetic) ss a
  unfolding add_all aggregate
  aggregate-add_all [] a = refl
  aggregate-add_all (s ∷ ss) a = aggregate-add_all ss _

  exchange_entries-append :
      (ss ts : List (Snapshot Double))
      → exchange_entries (ss ++ ts) ≡ exchange_entries ss + exchange_entries ts
  exchange_entries-append [] ts = omega arith
  exchange_entries-append (s ∷ ss) ts = omega (arith, exchange_entries-append ss ts)

  summary-Tells :
      (ss : List (Snapshot Double))
      → length ss < 2147483648
      → exchange_entries ss < u64_mod
      → Tells ss (
          produce_summary arithmetic
            (aggregate (metric_aggregation arithmetic) ss (init arithmetic)))
  unfolding Tells
  summary-Tells [] few h = unfold produce_summary aggregate init reset_running in refl
  summary-Tells (first ∷ rest) few h =
      subst (IsSummary arithmetic first rest)
        (produce_summary-reset arithmetic (first ∷ rest) (init arithmetic)
          ∙ ap (produce_summary arithmetic) (aggregate-add_all (first ∷ rest) (init arithmetic)))
        (produce_summary-add_all arithmetic first rest (init arithmetic) few h)

  summaries_of-Reported :
      (closed : List (Bool × List (Snapshot Double)))
      → length (all_of (metric_aggregation arithmetic) closed) < 2147483648
      → exchange_entries (all_of (metric_aggregation arithmetic) closed) < u64_mod
      → Reported closed (summaries_of (metric_aggregation arithmetic) closed)
  unfolding all_of summaries_of
  summaries_of-Reported [] few h = Reported.none_closed
  summaries_of-Reported ((true, ss) ∷ closed) few h =
      let later : List (Snapshot Double) = all_of (metric_aggregation arithmetic) closed in
      Reported.delivered
        (summary-Tells ss (omega (arith, length-append ss later))
          (omega (arith, exchange_entries-append ss later)))
        (summaries_of-Reported closed (omega (arith, length-append ss later))
          (omega (arith, exchange_entries-append ss later)))
  summaries_of-Reported ((false, ss) ∷ closed) few h =
      let later : List (Snapshot Double) = all_of (metric_aggregation arithmetic) closed in
      Reported.dropped (
        summaries_of-Reported closed (omega (arith, length-append ss later))
          (omega (arith, exchange_entries-append ss later)))

  -- what the events on a new manager say: the closed intervals with their snapshots, and the rest
  abbrev pub ledger :
      List (Event (metric_aggregation arithmetic)) → Ledger (metric_aggregation arithmetic)
  ledger es =
      enter_all (metric_aggregation arithmetic) es (empty_ledger (metric_aggregation arithmetic))

  -- Whatever is started, stopped and set on a new manager, for fewer than 2 ^ 31 snapshots taken and 2 ^ 64
  -- entries on exchanges in them: the callback was given, in order, a summary of exactly the interval's own
  -- snapshots for each interval that the events close while a callback is set, and nothing else. An interval
  -- closes with the first round of the running manager 15 minutes or more after its start, and its
  -- snapshots are those of the rounds of the running manager since the interval before it.
  pub summaries-Reported :
      (es : List (Event (metric_aggregation arithmetic)))
      → length (ledger es).taken < 2147483648
      → exchange_entries (ledger es).taken < u64_mod
      → Reported
          (ledger es).closed
          (Manager.run
            (metric_aggregation arithmetic)
            es
            (Manager.init (metric_aggregation arithmetic))).summaries
  summaries-Reported es few h =
      let l = ledger es in
      let accounts = run-init-Accounts (metric_aggregation arithmetic) es in
      let before : List (Snapshot Double) = all_of (metric_aggregation arithmetic) l.closed in
      let count = ap length accounts.whole in
      let many = ap exchange_entries accounts.whole in
      subst (Reported l.closed) (sym accounts.delivered) (
        summaries_of-Reported l.closed (omega (arith, count, length-append before l.pending))
          (omega (arith, many, exchange_entries-append before l.pending)))
