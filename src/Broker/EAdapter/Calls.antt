-- ===== src/Broker/EAdapter/Calls.antt =====
-- That every call of the adapter of broker/src/adapter/eadapter.cpp keeps its client tuned.
use datafeed_server.Prelude.{
  ◌≡◌, refl, ◌∙◌, ap, sym, Bool, true, String, List, [], ◌∷◌, Option, none, some, Bool-cases,
  then_case, else_case, inl, inr,
}
use datafeed_server.Broker.EAdapter.{
  ExchangeType, Client, EAdapter, new_client, tell, tell_active, subscribe_symbols, on_update,
  make_client, set_exchange, set_symbols, set_callback, begin_run, stop, new_adapter, Call, step,
  run,
}
use datafeed_server.Broker.EAdapter.Tuning.{
  active, others, IsTuned, set_up, set_up-IsTuned, resting-IsTuned, make_client-alone,
  tell_active-Told, active-tell,
}

set_exchange-IsTuned : (type : ExchangeType) (a : EAdapter) → IsTuned (set_exchange type a)
unfolding set_exchange subscribe_symbols set_up
set_exchange-IsTuned type a =
    let (here, alone, same) = make_client-alone type a in
    let made : EAdapter = make_client type a in
    elim (Bool-cases made.running) [
      | inl e ↦
          then_case IsTuned made.running (set_up made) made e
            (set_up-IsTuned made new_client (set_up made).running here alone)
      | inr e ↦
          else_case IsTuned made.running (set_up made) made e
            (resting-IsTuned made new_client e here alone)
    ]

set_symbols-IsTuned :
    (symbols : List String) (a : EAdapter) → IsTuned a → IsTuned (set_symbols symbols a)
unfolding set_symbols
set_symbols-IsTuned symbols a h =
    let changed : EAdapter = record a { symbols = symbols } in
    let here : active changed ≡ some h.client = unfold active in h.present in
    let alone : others changed ≡ (none, none) = unfold others in h.alone in
    elim (Bool-cases a.running) [
      | inl e ↦ then_case IsTuned a.running (subscribe_symbols changed) changed e (
          let (now, rest, same, still) =
            tell_active-Told (λ c. record c { subscribed = some symbols }) changed in
          unfold subscribe_symbols in
          record {
            client = record h.client { subscribed = some symbols };
            present =
                active-tell (λ c. record c { subscribed = some symbols }) changed
                  (tell_active (λ c. record c { subscribed = some symbols }) changed) h.client now
                  here;
            alone = rest ∙ alone;
            connected = λ r. h.connected e;
            listening = λ r. h.listening e;
            current = λ r. ap some (sym still);
          })
      | inr e ↦
          else_case IsTuned a.running (subscribe_symbols changed) changed e
            (resting-IsTuned changed h.client e here alone)
    ]

set_callback-IsTuned : (cb : Bool) (a : EAdapter) → IsTuned a → IsTuned (set_callback cb a)
unfolding set_callback
set_callback-IsTuned cb a h =
    let changed : EAdapter = record a { has_external_cb = cb } in
    let here : active changed ≡ some h.client = unfold active in h.present in
    let alone : others changed ≡ (none, none) = unfold others in h.alone in
    elim (Bool-cases a.running) [
      | inl e ↦ then_case IsTuned a.running (on_update changed) changed e (
          let (now, rest, same, still) =
            tell_active-Told (λ c. record c { has_callback = true }) changed in
          unfold on_update in
          record {
            client = record h.client { has_callback = true };
            present =
                active-tell (λ c. record c { has_callback = true }) changed
                  (tell_active (λ c. record c { has_callback = true }) changed) h.client now here;
            alone = rest ∙ alone;
            connected = λ r. h.connected e;
            listening = λ r. refl;
            current = λ r. h.current e ∙ ap some (sym still);
          })
      | inr e ↦
          else_case IsTuned a.running (on_update changed) changed e
            (resting-IsTuned changed h.client e here alone)
    ]

abbrev told_off : Client → Client
told_off c = record c { told_to_stop = true }

-- the client in use after a stop, by the exchange
stopped : ExchangeType → Client → Client
stopped ExchangeType.binance c = c
stopped ExchangeType.jupiter c = record c { told_to_stop = true }
stopped ExchangeType.birdeye c = record c { told_to_stop = true }

stop-fields :
    (type : ExchangeType) (c₁ c₂ c₃ : Option Client) (symbols : List String) (running cb : Bool)
    (c : Client)
    → let a : EAdapter = record {
      exchange_type = type;
      exchange1 = c₁;
      exchange2 = c₂;
      exchange3 = c₃;
      symbols = symbols;
      running = running;
      has_external_cb = cb;
    } in
      active a ≡ some c
      → others a ≡ (none, none)
      → (active (stop a) ≡ some (stopped type c)) × (others (stop a) ≡ (none, none))
unfolding stop active others tell stopped
stop-fields ExchangeType.binance c₁ c₂ c₃ symbols running cb c h k =
    (h, ap (λ (p : Option Client × Option Client). (tell told_off p.0, tell told_off p.1)) k)
stop-fields ExchangeType.jupiter c₁ c₂ c₃ symbols running cb c h k =
    (ap (tell told_off) h, ap (λ (p : Option Client × Option Client). (p.0, tell told_off p.1)) k)
stop-fields ExchangeType.birdeye c₁ c₂ c₃ symbols running cb c h k =
    (ap (tell told_off) h, ap (λ (p : Option Client × Option Client). (p.0, tell told_off p.1)) k)

stop-IsTuned : (a : EAdapter) → IsTuned a → IsTuned (stop a)
stop-IsTuned a h =
    let (here, alone) =
      stop-fields a.exchange_type a.exchange1 a.exchange2 a.exchange3 a.symbols a.running
        a.has_external_cb h.client h.present h.alone in
    resting-IsTuned (stop a) (stopped a.exchange_type h.client) (unfold stop in refl) here alone

step-IsTuned : (c : Call) (a : EAdapter) → IsTuned a → IsTuned (step c a)
unfolding step
step-IsTuned (Call.sets_exchange type) a h = set_exchange-IsTuned type a
step-IsTuned (Call.sets_symbols symbols) a h = set_symbols-IsTuned symbols a h
step-IsTuned (Call.sets_callback cb) a h = set_callback-IsTuned cb a h
step-IsTuned Call.runs a h =
    unfold begin_run in (unfold set_up in set_up-IsTuned a h.client true h.present h.alone)
step-IsTuned Call.stops a h = stop-IsTuned a h

run-IsTuned : (cs : List Call) (a : EAdapter) → IsTuned a → IsTuned (run cs a)
unfolding run
run-IsTuned [] a h = h
run-IsTuned (c ∷ cs) a h = run-IsTuned cs (step c a) (step-IsTuned c a h)

-- After any calls on a new adapter, there is a client of the exchange in use and of no other exchange; and
-- while the adapter runs, that client was told to connect and to call back, and the last subscription that it was
-- told of is to the adapter's present symbols. In which order the different calls to the client came is
-- not stated.
pub run-new_adapter : (type : ExchangeType) (cs : List Call) → IsTuned (run cs (new_adapter type))
run-new_adapter type cs =
    run-IsTuned cs (new_adapter type) (unfold new_adapter in set_exchange-IsTuned type _)
