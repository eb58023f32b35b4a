-- ===== src/Metrics/RingBuffer.antt =====
-- metrics/ring_buffer.h, class RingBuffer. Each method holds the mutex, so it is one step. `blank` is
-- `T{}`; sums of `size_t` wrap, and the subtraction in `forEach` and `latest` is written with the modulus.
pub mod Invariant
pub mod Window
pub mod Contents
pub mod History
mod Examples
use datafeed_server.Prelude.{
  ℕ, zero, suc, ◌+◌, ◌%◌, Bool, List, [], ◌∷◌, if◌then◌else◌, ltb, eqb, add64, sub64, get_or, set,
  replicate,
}

-- `data_`, `head_`, `size_`
pub record RingBuffer {ℓ} (A : Type ℓ) : Type ℓ where
  pub items : List A
  pub head : ℕ
  pub size : ℕ

module _ {ℓ} {A : Type ℓ} (capacity : ℕ) (blank : A) where
  unfoldable pub init : RingBuffer A
  init = record { items = replicate capacity blank; head = 0; size = 0 }

  unfoldable pub push : A → RingBuffer A → RingBuffer A
  push item r = record {
    items = set r.items r.head item;
    head = add64 r.head 1 % capacity;
    size = if ltb r.size capacity then add64 r.size 1 else r.size;
  }

  unfoldable pub empty : RingBuffer A → Bool
  empty r = eqb r.size 0

  unfoldable pub clear : RingBuffer A → RingBuffer A
  clear r = record r { head = 0; size = 0 }

  -- `data_[(start + i) % Capacity]`, for the `n` rounds from round `i` on
  unfoldable pub visit : List A → ℕ → ℕ → ℕ → List A
  visit items start i zero = []
  visit items start i (suc n) =
      get_or items (add64 start i % capacity) blank ∷ visit items start (add64 i 1) n

  -- the arguments of the calls of `func`, in order
  unfoldable pub for_each : RingBuffer A → List A
  unfolding visit
  for_each r =
      if eqb r.size 0
      then []
      else visit r.items (sub64 (add64 r.head capacity) r.size % capacity) 0 r.size

  unfoldable pub latest : RingBuffer A → A
  latest r =
      if eqb r.size 0
      then blank
      else get_or r.items (sub64 (add64 r.head capacity) 1 % capacity) blank
