-- ===== src/Database/History/Queues.antt =====
-- sadapter.h and sadapter.cpp: the rows of the table queue_history.
use datafeed_server.Prelude.{ℕ, Bool, String, List, [], ◌∷◌, Option, some}
use datafeed_server.Prelude.Int.{ℤ}
use datafeed_server.Database.Timestamps.{timestamp_to_string}
use datafeed_server.Database.Values.{
  Value, Row, append_double, append_int64, read_double, read_int64, int64_in, text_in, bool_in,
  timestamp_in, ◌>>=◌,
}

pub record QueueEntry (D : Type 0) : Type 0 where
  pub id : ℤ
  pub instance_id : String
  pub measured_at : ℕ
  pub incoming_depth : ℤ
  pub outgoing_depth : ℤ
  pub serialization_depth : ℤ
  pub max_incoming_depth : Option ℤ
  pub max_outgoing_depth : Option ℤ
  pub max_serialization_depth : Option ℤ
  pub overflow_count : Option ℤ
  pub backpressure : Bool
  pub wait_time_ms : Option D
  pub processing_time_ms : Option D

unfoldable pub queue_entry_values : {D : Type 0} → QueueEntry D → List (Value D)
unfolding append_double append_int64
queue_entry_values e =
    Value.text e.instance_id
    ∷ Value.timestamp (timestamp_to_string e.measured_at)
    ∷ Value.int e.incoming_depth
    ∷ Value.int e.outgoing_depth
    ∷ Value.int e.serialization_depth
    ∷ append_int64 e.max_incoming_depth
    ∷ append_int64 e.max_outgoing_depth
    ∷ append_int64 e.max_serialization_depth
    ∷ append_int64 e.overflow_count
    ∷ Value.bool e.backpressure
    ∷ append_double e.wait_time_ms
    ∷ append_double e.processing_time_ms
    ∷ []

unfoldable pub read_queue_entry : {D : Type 0} → Row D → Option (QueueEntry D)
unfolding read_double read_int64 int64_in text_in bool_in timestamp_in
read_queue_entry row = do
  id ← int64_in row "id"
  instance_id ← text_in row "instance_id"
  measured_at ← timestamp_in row "measured_at"
  incoming_depth ← int64_in row "incoming_depth"
  outgoing_depth ← int64_in row "outgoing_depth"
  serialization_depth ← int64_in row "serialization_depth"
  backpressure ← bool_in row "backpressure"
  some (record {
    id = id;
    instance_id = instance_id;
    measured_at = measured_at;
    incoming_depth = incoming_depth;
    outgoing_depth = outgoing_depth;
    serialization_depth = serialization_depth;
    max_incoming_depth = read_int64 row "max_incoming_depth";
    max_outgoing_depth = read_int64 row "max_outgoing_depth";
    max_serialization_depth = read_int64 row "max_serialization_depth";
    overflow_count = read_int64 row "overflow_count";
    backpressure = backpressure;
    wait_time_ms = read_double row "wait_time_ms";
    processing_time_ms = read_double row "processing_time_ms";
  })
