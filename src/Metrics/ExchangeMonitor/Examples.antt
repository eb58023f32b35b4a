-- ===== src/Metrics/ExchangeMonitor/Examples.antt =====
-- Two exchanges, and the theorems of metrics/exchange_monitor.cpp at them. A `double` is a number here.
use datafeed_server.Prelude.{
  ℕ, ◌≡◌, refl, true, false, List, [], ◌∷◌, some, arith, lookup, string_key,
}
use datafeed_server.Metrics.ExchangeMonitor.{
  ExchangeData, ExchangeMonitor, Call, fresh, stats_of, elapsed_ms,
}
use datafeed_server.Metrics.ExchangeMonitor.Isolation.{calls_of, bodies}
use datafeed_server.Metrics.ExchangeMonitor.Reports.{
  reported, reported-calls_of, messages_in, received, next, reported-received,
}
use datafeed_server.Metrics.ExchangeMonitor.Locking.{check_stale-revives}

abbrev seconds : ℕ → ℕ
seconds ns = 0

abbrev binance_data : ExchangeData ℕ
binance_data = record (fresh 0) {
  connected = true;
  last_heartbeat = 1000000;
  connected_since = 1000000;
}

abbrev monitor : ExchangeMonitor ℕ
monitor = record { locked = false; exchanges = ("BINANCE", binance_data) ∷ [] }

abbrev calls : List (Call ℕ)
calls =
    Call.message_received "BINANCE" 2000000
    ∷ Call.message_received "JUPITER" 3000000
    ∷ Call.resets "BINANCE"
    ∷ Call.message_received "BINANCE" 4000000
    ∷ []

counted : received "BINANCE" calls 0 ≡ 1
unfolding received next
counted = refl

reported-calls_of_example :
    (reported 0 seconds 9000000 "BINANCE" calls monitor
      ≡ reported 0 seconds 9000000 "BINANCE" (calls_of "BINANCE" calls) monitor)
    × (reported 0 seconds 9000000 "BINANCE" calls monitor
        ≡ some (stats_of 0 seconds 9000000 (lookup "BINANCE" (bodies 0 calls monitor.exchanges))))
reported-calls_of_example = reported-calls_of 0 seconds 9000000 "BINANCE" calls monitor refl

reported-received_example :
    messages_in
      (reported 0 seconds 9000000 "BINANCE" calls (record { locked = false; exchanges = [] }))
    ≡ some (received "BINANCE" calls 0)
reported-received_example = reported-received 0 seconds 9000000 "BINANCE" calls (omega arith)

check_stale-revives_example :
    reported 0 seconds 9000000 "BINANCE"
      (Call.disconnected "BINANCE" 5000000 ∷ Call.check_stale "BINANCE" 9000000 5000 ∷ [])
      monitor
    ≡ some (
        stats_of 0 seconds 9000000
          (some (record binance_data { connected = true; disconnected_since = 5000000 })))
unfolding lookup elapsed_ms
check_stale-revives_example =
    check_stale-revives 0 seconds "BINANCE" binance_data 5000000 9000000 5000 monitor refl refl
      (omega arith)
