-- ===== src/Database/Statements.antt =====
-- sadapter.cpp, `prepare_monitoring_statements`: the statements that are prepared, in order.
pub mod Texts
pub mod Measures
pub mod Others
use datafeed_server.Prelude.{List, [], ◌∷◌}
pub use datafeed_server.Database.Statements.Texts.{Statement, Insert, Expression}
unfoldable pub use datafeed_server.Database.Statements.Texts.{placeholders}
unfoldable pub use datafeed_server.Database.Statements.Measures.{
  metric_columns, insert_snapshot, insert_exchange_metrics, insert_queue_entry,
  insert_system_metrics, insert_network_metrics, insert_database_metrics, insert_weekly_summary,
}
unfoldable pub use datafeed_server.Database.Statements.Others.{
  insert_alert, insert_metric_threshold, insert_subscription, insert_feed_event, insert_api_request,
  insert_exchange_health, insert_backtest_job, insert_config_version,
}

unfoldable pub monitoring_statements : List Statement
unfolding insert_snapshot insert_exchange_metrics insert_queue_entry insert_system_metrics
    insert_network_metrics insert_database_metrics insert_alert insert_metric_threshold
    insert_weekly_summary insert_subscription insert_feed_event insert_api_request
    insert_exchange_health insert_backtest_job insert_config_version
monitoring_statements =
    Statement.insert insert_snapshot
    ∷ Statement.insert insert_exchange_metrics
    ∷ Statement.insert insert_queue_entry
    ∷ Statement.insert insert_system_metrics
    ∷ Statement.insert insert_network_metrics
    ∷ Statement.insert insert_database_metrics
    ∷ Statement.insert insert_alert
    ∷ Statement.other "get_alert_by_id" "SELECT * FROM alerts WHERE alert_id = $1"
    ∷ Statement.other "get_alerts_by_condition" "SELECT * FROM alerts"
    ∷ Statement.other "update_alert"
        "UPDATE alerts SET instance_id = $1, severity = $2, source = $3, metric_name = $4, current_value = $5, threshold = $6, message = $7, acknowledged = $8, resolved_at = $9 WHERE alert_id = $10"
    ∷ Statement.other "delete_alert" "DELETE FROM alerts WHERE alert_id = $1"
    ∷ Statement.insert insert_metric_threshold
    ∷ Statement.other "get_metric_threshold_by_id" "SELECT * FROM metric_thresholds WHERE id = $1"
    ∷ Statement.other "update_metric_threshold"
        "UPDATE metric_thresholds SET instance_id = $1, metric_name = $2, source = $3, warning_threshold = $4, critical_threshold = $5, operator = $6, enabled = $7, cooldown_seconds = $8, updated_at = NOW() WHERE id = $9"
    ∷ Statement.other "delete_metric_threshold" "DELETE FROM metric_thresholds WHERE id = $1"
    ∷ Statement.insert insert_weekly_summary
    ∷ Statement.other "delete_weekly_summary" "DELETE FROM weekly_metrics_summary WHERE id = $1"
    ∷ Statement.insert insert_subscription
    ∷ Statement.other "get_subscription_by_id"
        "SELECT * FROM subscriptions WHERE subscription_id = $1"
    ∷ Statement.other "delete_subscription" "DELETE FROM subscriptions WHERE subscription_id = $1"
    ∷ Statement.other "update_subscription"
        "UPDATE subscriptions SET symbol=$1, topic=$2, stream_type=$3, mode=$4, filters_json=$5, priority=$6, removed_at=$7, is_active=$8, tenant_id=$9, session_id=$10 WHERE subscription_id=$11"
    ∷ Statement.insert insert_feed_event
    ∷ Statement.other "get_feed_event_by_id" "SELECT * FROM feed_events WHERE event_id = $1"
    ∷ Statement.other "delete_feed_event" "DELETE FROM feed_events WHERE event_id = $1"
    ∷ Statement.insert insert_api_request
    ∷ Statement.other "get_api_request_by_id" "SELECT * FROM api_requests WHERE request_id = $1"
    ∷ Statement.other "delete_api_request" "DELETE FROM api_requests WHERE request_id = $1"
    ∷ Statement.insert insert_exchange_health
    ∷ Statement.other "get_exchange_health_by_id" "SELECT * FROM exchange_health WHERE id = $1"
    ∷ Statement.other "delete_exchange_health" "DELETE FROM exchange_health WHERE id = $1"
    ∷ Statement.insert insert_backtest_job
    ∷ Statement.other "get_backtest_job_by_id" "SELECT * FROM backtest_jobs WHERE job_id = $1"
    ∷ Statement.other "delete_backtest_job" "DELETE FROM backtest_jobs WHERE job_id = $1"
    ∷ Statement.insert insert_config_version
    ∷ Statement.other "get_config_version_by_id" "SELECT * FROM config_versions WHERE id = $1"
    ∷ Statement.other "delete_config_version" "DELETE FROM config_versions WHERE id = $1"
    ∷ []
