-- ===== src/Metrics/NetworkMonitor.antt =====
-- metrics/network_monitor.h and metrics/network_monitor.cpp, class NetworkMonitor, with the calls taken one after
-- the other. `getStats` returns the fields. A `double` is a value of any type `D`, only stored.
use datafeed_server.Prelude.{ℕ, List, [], ◌∷◌, add64}
use datafeed_server.Metrics.Atomics.{bump}

pub record NetworkMonitor {ℓ} (D : Type ℓ) : Type ℓ where
  pub tcp_reconnects : ℕ
  pub socket_errors : ℕ
  pub read_errors : ℕ
  pub write_errors : ℕ
  pub tls_handshake_failures : ℕ
  pub bytes_transmitted : ℕ
  pub bytes_received : ℕ
  pub socket_rtt_ms : D
  pub network_bandwidth_bps : D
  pub connection_failures : ℕ

pub data Call {ℓ} (D : Type ℓ) : Type ℓ where
  tcp_reconnect : Call D
  socket_error : Call D
  read_error : Call D
  write_error : Call D
  tls_handshake_failure : Call D
  transmits : ℕ → Call D
  receives : ℕ → Call D
  socket_rtt : D → Call D
  network_bandwidth : D → Call D
  connection_failure : Call D
  resets : Call D

module _ {ℓ} {D : Type ℓ} (zero_ms : D) where
  -- also the state of a new monitor
  unfoldable pub reset : NetworkMonitor D
  reset = record {
    tcp_reconnects = 0;
    socket_errors = 0;
    read_errors = 0;
    write_errors = 0;
    tls_handshake_failures = 0;
    bytes_transmitted = 0;
    bytes_received = 0;
    socket_rtt_ms = zero_ms;
    network_bandwidth_bps = zero_ms;
    connection_failures = 0;
  }

  unfoldable pub step : Call D → NetworkMonitor D → NetworkMonitor D
  unfolding bump reset
  step Call.tcp_reconnect m = record m { tcp_reconnects = bump m.tcp_reconnects }
  step Call.socket_error m = record m { socket_errors = bump m.socket_errors }
  step Call.read_error m = record m { read_errors = bump m.read_errors }
  step Call.write_error m = record m { write_errors = bump m.write_errors }
  step Call.tls_handshake_failure m = record m {
    tls_handshake_failures = bump m.tls_handshake_failures;
  }
  step (Call.transmits n) m = record m { bytes_transmitted = add64 m.bytes_transmitted n }
  step (Call.receives n) m = record m { bytes_received = add64 m.bytes_received n }
  step (Call.socket_rtt v) m = record m { socket_rtt_ms = v }
  step (Call.network_bandwidth v) m = record m { network_bandwidth_bps = v }
  step Call.connection_failure m = record m { connection_failures = bump m.connection_failures }
  step Call.resets m = reset

  unfoldable pub run : List (Call D) → NetworkMonitor D → NetworkMonitor D
  run [] m = m
  run (c ∷ cs) m = run cs (step c m)
