-- ===== src/Metrics/RingBuffer/Examples.antt =====
-- A ring of three numbers, and the theorems of metrics/ring_buffer.h at it.
use datafeed_server.Prelude.{ℕ, ◌≡◌, refl, [], ◌∷◌, ◌++◌, arith}
use datafeed_server.Metrics.RingBuffer.{RingBuffer, init, push, for_each}
use datafeed_server.Metrics.RingBuffer.Invariant.{IsValid}
use datafeed_server.Metrics.RingBuffer.Contents.{keep_last}
use datafeed_server.Metrics.RingBuffer.History.{push_all, for_each-push_all}

-- 5, 6 and 7, after the end of the storage was passed
abbrev ring : RingBuffer ℕ
ring = record { items = 7 ∷ 5 ∷ 6 ∷ []; head = 1; size = 3 }

ring-IsValid : IsValid 3 0 ring
ring-IsValid = omega arith

pushed_all : push_all 3 0 (1 ∷ 5 ∷ 6 ∷ 7 ∷ []) (init 3 0) ≡ record ring { items = 7 ∷ 5 ∷ 6 ∷ [] }
unfolding push_all push init
pushed_all = refl

visited : for_each 3 0 ring ≡ 5 ∷ 6 ∷ 7 ∷ []
unfolding for_each
visited = refl

for_each-push_all_example :
    for_each 3 0 (push_all 3 0 (8 ∷ 9 ∷ []) ring) ≡ keep_last 3 (for_each 3 0 ring ++ (8 ∷ 9 ∷ []))
for_each-push_all_example = for_each-push_all 3 0 (8 ∷ 9 ∷ []) ring ring-IsValid
