-- ===== src/Metrics/RingBuffer/Invariant.antt =====
-- The representation invariant of metrics/ring_buffer.h: no index is out of range and no sum wraps.
use datafeed_server.Prelude.{ℕ, ◌^◌, ◌≤◌, ◌<◌, ◌≡◌, arith, length, length-set, length-replicate}
use datafeed_server.Metrics.RingBuffer.{RingBuffer, init, push, clear}

module _ {ℓ} {A : Type ℓ} (capacity : ℕ) (blank : A) where
  pub record IsValid (r : RingBuffer A) : Type ℓ where
    pub storage : length r.items ≡ capacity
    pub positive : 1 ≤ capacity
    pub small : capacity ≤ 2 ^ 63
    pub head_in : r.head < capacity
    pub size_in : r.size ≤ capacity

  pub init-IsValid : 1 ≤ capacity → capacity ≤ 2 ^ 63 → IsValid (init capacity blank)
  unfolding init
  init-IsValid h k = omega (arith, length-replicate capacity blank)

  -- `push` keeps the storage at `Capacity` items, the head inside it and the size at most `Capacity`.
  pub push-IsValid :
      (item : A) (r : RingBuffer A) → IsValid r → IsValid (push capacity blank item r)
  unfolding push
  push-IsValid item r v = ground (arith, length-set r.items r.head item)

  pub clear-IsValid : (r : RingBuffer A) → IsValid r → IsValid (clear capacity blank r)
  unfolding clear
  clear-IsValid r v = ground arith
