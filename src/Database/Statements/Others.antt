-- ===== src/Database/Statements/Others.antt =====
-- sadapter.cpp, `prepare_monitoring_statements`: the INSERTs into the other tables.
use datafeed_server.Prelude.{[], ◌∷◌, ◌++◌}
use datafeed_server.Database.Statements.Texts.{Insert, Expression, placeholders}

unfoldable pub insert_alert : Insert
unfolding placeholders
insert_alert = record {
  name = "insert_alert";
  table = "alerts";
  columns =
      "instance_id" ∷ "severity" ∷ "source" ∷ "metric_name" ∷ "current_value" ∷ "threshold"
      ∷ "message" ∷ "acknowledged" ∷ "created_at" ∷ "resolved_at" ∷ [];
  values = placeholders 10;
  returning = "alert_id";
}

unfoldable pub insert_metric_threshold : Insert
unfolding placeholders
insert_metric_threshold = record {
  name = "insert_metric_threshold";
  table = "metric_thresholds";
  columns =
      "instance_id" ∷ "metric_name" ∷ "source" ∷ "warning_threshold" ∷ "critical_threshold"
      ∷ "operator" ∷ "enabled" ∷ "cooldown_seconds" ∷ "created_at" ∷ "updated_at" ∷ [];
  values = placeholders 8 ++ (Expression.now ∷ Expression.now ∷ []);
  returning = "id";
}

unfoldable pub insert_subscription : Insert
unfolding placeholders
insert_subscription = record {
  name = "insert_subscription";
  table = "subscriptions";
  columns =
      "subscription_id" ∷ "symbol" ∷ "topic" ∷ "stream_type" ∷ "mode" ∷ "filters_json" ∷ "priority"
      ∷ "created_at" ∷ "removed_at" ∷ "is_active" ∷ "tenant_id" ∷ "session_id" ∷ [];
  values = placeholders 12;
  returning = "subscription_id";
}

unfoldable pub insert_feed_event : Insert
unfolding placeholders
insert_feed_event = record {
  name = "insert_feed_event";
  table = "feed_events";
  columns =
      "event_id" ∷ "actor_type" ∷ "actor_id" ∷ "action_type" ∷ "target_type" ∷ "target_id"
      ∷ "result" ∷ "error_code" ∷ "trace_id" ∷ "correlation_id" ∷ "occurred_at" ∷ "metadata" ∷ [];
  values = placeholders 12;
  returning = "event_id";
}

unfoldable pub insert_api_request : Insert
unfolding placeholders
insert_api_request = record {
  name = "insert_api_request";
  table = "api_requests";
  columns =
      "request_id" ∷ "endpoint" ∷ "method" ∷ "status_code" ∷ "latency_ms" ∷ "request_size"
      ∷ "response_size" ∷ "client_id" ∷ "session_id" ∷ "instance_id" ∷ "timestamp" ∷ [];
  values = placeholders 11;
  returning = "request_id";
}

unfoldable pub insert_exchange_health : Insert
unfolding placeholders
insert_exchange_health = record {
  name = "insert_exchange_health";
  table = "exchange_health";
  columns =
      "exchange_name" ∷ "endpoint" ∷ "status" ∷ "last_success_at" ∷ "last_error_at" ∷ "error_count"
      ∷ "rate_limit_hits" ∷ "latency_ms" ∷ "symbols_active" ∷ "feed_lag_ms" ∷ "checked_at" ∷ [];
  values = placeholders 11;
  returning = "id";
}

unfoldable pub insert_backtest_job : Insert
unfolding placeholders
insert_backtest_job = record {
  name = "insert_backtest_job";
  table = "backtest_jobs";
  columns =
      "job_id" ∷ "symbol" ∷ "exchange" ∷ "start_time" ∷ "end_time" ∷ "replay_speed" ∷ "status"
      ∷ "progress" ∷ "created_at" ∷ "completed_at" ∷ [];
  values = placeholders 10;
  returning = "job_id";
}

unfoldable pub insert_config_version : Insert
unfolding placeholders
insert_config_version = record {
  name = "insert_config_version";
  table = "config_versions";
  columns =
      "config_version" ∷ "build_sha" ∷ "adapter_version" ∷ "deployment_id" ∷ "feature_flags"
      ∷ "schema_version" ∷ "applied_at" ∷ [];
  values = placeholders 7;
  returning = "id";
}
