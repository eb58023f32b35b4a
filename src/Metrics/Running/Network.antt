-- ===== src/Metrics/Running/Network.antt =====
-- metrics/metric_aggregator.h and metrics/metric_aggregator.cpp: what class MetricAggregator keeps of the
-- network of the snapshots, what a snapshot adds, and what it reports.
use datafeed_server.Prelude.{Bool, List, [], ap, false, if◌then◌else◌, refl, true, ℕ, ◌∷◌, ◌≡◌}
use datafeed_server.Metrics.LatencyTracker.{DoubleArithmetic}
use datafeed_server.Metrics.Snapshot.{Network}
use datafeed_server.Metrics.Running.{sum_double, latest}

pub record NetworkRunning (D : Type 0) : Type 0 where
  pub last_tcp_reconn : ℕ
  pub last_sock_err : ℕ
  pub last_read_err : ℕ
  pub last_write_err : ℕ
  pub last_tls_fail : ℕ
  pub last_bytes_tx : ℕ
  pub last_bytes_rx : ℕ
  pub sum_rtt : D
  pub sum_bw : D
  pub last_conn_fail : ℕ
  pub initialized : Bool

module _ (arithmetic : DoubleArithmetic) where
  open arithmetic use {Double, zero_double, plus, over}

  -- the part of `reset`, also that of a new aggregator
  unfoldable pub reset : NetworkRunning Double
  reset = record {
    last_tcp_reconn = 0;
    last_sock_err = 0;
    last_read_err = 0;
    last_write_err = 0;
    last_tls_fail = 0;
    last_bytes_tx = 0;
    last_bytes_rx = 0;
    sum_rtt = zero_double;
    sum_bw = zero_double;
    last_conn_fail = 0;
    initialized = false;
  }

  -- the branch `if (!network_initialized_)`, and the other
  unfoldable pub first_network : Network Double → NetworkRunning Double → NetworkRunning Double
  first_network s r = record r {
    sum_rtt = s.socket_rtt_ms;
    sum_bw = s.network_bandwidth_bps;
    initialized = true;
  }

  unfoldable pub more_network : Network Double → NetworkRunning Double → NetworkRunning Double
  more_network s r = record r {
    sum_rtt = plus r.sum_rtt s.socket_rtt_ms;
    sum_bw = plus r.sum_bw s.network_bandwidth_bps;
  }

  -- the part of `addSnapshot`
  unfoldable pub add_network : Network Double → NetworkRunning Double → NetworkRunning Double
  unfolding first_network more_network
  add_network s r = record (if r.initialized then more_network s r else first_network s r) {
    last_tcp_reconn = s.tcp_reconnects;
    last_sock_err = s.socket_errors;
    last_read_err = s.read_errors;
    last_write_err = s.write_errors;
    last_tls_fail = s.tls_handshake_failures;
    last_bytes_tx = s.bytes_transmitted;
    last_bytes_rx = s.network_bytes_received;
    last_conn_fail = s.connection_failures;
  }

  unfoldable pub report_network : ℕ → NetworkRunning Double → Network Double
  report_network count r = record {
    tcp_reconnects = r.last_tcp_reconn;
    socket_errors = r.last_sock_err;
    read_errors = r.last_read_err;
    write_errors = r.last_write_err;
    tls_handshake_failures = r.last_tls_fail;
    bytes_transmitted = r.last_bytes_tx;
    network_bytes_received = r.last_bytes_rx;
    socket_rtt_ms = over r.sum_rtt count;
    network_bandwidth_bps = over r.sum_bw count;
    connection_failures = r.last_conn_fail;
  }

  unfoldable pub add_all : List (Network Double) → NetworkRunning Double → NetworkRunning Double
  add_all [] r = r
  add_all (s ∷ ss) r = add_all ss (add_network s r)

  -- The state after more snapshots, field by field.
  add_all-sums :
      (ss : List (Network Double)) (r : NetworkRunning Double)
      → add_all ss (record r { initialized = true }) ≡ record {
        last_tcp_reconn = latest (λ s. s.tcp_reconnects) r.last_tcp_reconn ss;
        last_sock_err = latest (λ s. s.socket_errors) r.last_sock_err ss;
        last_read_err = latest (λ s. s.read_errors) r.last_read_err ss;
        last_write_err = latest (λ s. s.write_errors) r.last_write_err ss;
        last_tls_fail = latest (λ s. s.tls_handshake_failures) r.last_tls_fail ss;
        last_bytes_tx = latest (λ s. s.bytes_transmitted) r.last_bytes_tx ss;
        last_bytes_rx = latest (λ s. s.network_bytes_received) r.last_bytes_rx ss;
        sum_rtt = sum_double arithmetic (λ s. s.socket_rtt_ms) r.sum_rtt ss;
        sum_bw = sum_double arithmetic (λ s. s.network_bandwidth_bps) r.sum_bw ss;
        last_conn_fail = latest (λ s. s.connection_failures) r.last_conn_fail ss;
        initialized = true;
      }
  unfolding add_all add_network latest sum_double
  add_all-sums [] r = refl
  add_all-sums (s ∷ ss) r = add_all-sums ss (add_network s (record r { initialized = true }))

  -- What a report on a first snapshot and others says, by the snapshots themselves.
  unfoldable pub summary : ℕ → Network Double → List (Network Double) → Network Double
  summary n first rest = record {
    tcp_reconnects = latest (λ s. s.tcp_reconnects) first.tcp_reconnects rest;
    socket_errors = latest (λ s. s.socket_errors) first.socket_errors rest;
    read_errors = latest (λ s. s.read_errors) first.read_errors rest;
    write_errors = latest (λ s. s.write_errors) first.write_errors rest;
    tls_handshake_failures =
        latest (λ s. s.tls_handshake_failures) first.tls_handshake_failures rest;
    bytes_transmitted = latest (λ s. s.bytes_transmitted) first.bytes_transmitted rest;
    network_bytes_received =
        latest (λ s. s.network_bytes_received) first.network_bytes_received rest;
    socket_rtt_ms = over (sum_double arithmetic (λ s. s.socket_rtt_ms) first.socket_rtt_ms rest) n;
    network_bandwidth_bps =
        over (sum_double arithmetic (λ s. s.network_bandwidth_bps) first.network_bandwidth_bps rest)
          n;
    connection_failures = latest (λ s. s.connection_failures) first.connection_failures rest;
  }

  pub report-add_all :
      (n : ℕ) (first : Network Double) (rest : List (Network Double))
      → report_network n (add_all (first ∷ rest) reset) ≡ summary n first rest
  unfolding report_network add_all add_network reset summary latest sum_double
  report-add_all n first rest = ap (report_network n) (add_all-sums rest (add_network first reset))
