-- ===== src/Broker/EAdapter/Examples.antt =====
-- An adapter that runs and changes its exchange, and the theorem of broker/src/adapter/eadapter.cpp at it.
use datafeed_server.Prelude.{◌≡◌, refl, true, List, [], ◌∷◌, some}
use datafeed_server.Broker.EAdapter.{
  ExchangeType, Call, run, step, new_adapter, set_exchange, set_symbols, set_callback, begin_run,
  make_client, new_client, tell, tell_active, connect_to_exchange, subscribe_symbols, on_update,
}
use datafeed_server.Broker.EAdapter.Tuning.{IsTuned, active}
use datafeed_server.Broker.EAdapter.Calls.{run-new_adapter}

abbrev calls : List Call
calls =
    Call.sets_symbols ("BTCUSDT" ∷ [])
    ∷ Call.sets_callback true
    ∷ Call.runs
    ∷ Call.sets_exchange ExchangeType.jupiter
    ∷ Call.sets_symbols ("BTC" ∷ [])
    ∷ []

jupiter_client :
    active (run calls (new_adapter ExchangeType.binance))
    ≡ some (record new_client {
      told_to_connect = true;
      subscribed = some ("BTC" ∷ []);
      has_callback = true;
    })
unfolding run step new_adapter set_exchange set_symbols set_callback begin_run make_client
    new_client tell tell_active connect_to_exchange subscribe_symbols on_update active
jupiter_client = refl

run-new_adapter_example : IsTuned (run calls (new_adapter ExchangeType.binance))
run-new_adapter_example = run-new_adapter ExchangeType.binance calls
