-- ===== src/Metrics/Persistence/Examples.antt =====
-- A summary that is handed to the callback of server/server.cpp.
use datafeed_server.Prelude.{true, [], ◌≡◌}
use datafeed_server.Metrics.LatencyTracker.WholeNumbers.{whole_numbers}
use datafeed_server.Metrics.Snapshot.{blank}
use datafeed_server.Metrics.Persistence.{persist_summary, persist_summary-stores_nothing}
use datafeed_server.Database.Adapter.{SAdapter}
use datafeed_server.Database.Store.{listed}

abbrev empty : SAdapter listed
empty = record { is_connected = true; tables = [] }

persist_summary-stores_nothing_example :
    persist_summary whole_numbers listed (λ stats. "{}") 5 (blank 0) empty ≡ empty
persist_summary-stores_nothing_example =
    persist_summary-stores_nothing whole_numbers listed (λ stats. "{}") 5 (blank 0) empty
