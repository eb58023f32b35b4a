-- ===== src/Metrics/SessionMonitor/Balance.antt =====
-- What the counters of metrics/session_monitor.cpp amount to after any calls.
use datafeed_server.Prelude.{
  ℕ, suc, ◌+◌, ◌-◌, ◌/◌, ◌<◌, ◌≤◌, ◌≡◌, refl, ◌∙◌, String, List, [], ◌∷◌, arith, length, u64_mod,
  if◌then◌else◌, ltb, add64, ◌==◌, string_key, insert, find_or, lookup, Bool, true, false, ◌||◌,
  contains, Bool-cases, inl, inr,
}
use datafeed_server.Metrics.Atomics.{bump, drop_one}
use datafeed_server.Metrics.SessionMonitor.{
  SessionMonitor, Call, reset, step, run, count_client, sum_counts, mean_connections,
}

unfoldable pub connects : List Call → ℕ
connects [] = 0
connects (Call.client_connected client ∷ cs) = suc (connects cs)
connects (c ∷ cs) = connects cs

unfoldable pub disconnects : List Call → ℕ
disconnects [] = 0
disconnects (Call.client_disconnected client ∷ cs) = suc (disconnects cs)
disconnects (c ∷ cs) = disconnects cs

-- the connections of clients with an identity
unfoldable pub named_connects : List Call → ℕ
named_connects [] = 0
named_connects (Call.client_connected client ∷ cs) =
    if client == "" then named_connects cs else suc (named_connects cs)
named_connects (c ∷ cs) = named_connects cs

-- How many of the identities of clients that connect are new, after some that were seen.
unfoldable pub new_clients : List String → List Call → ℕ
new_clients seen [] = 0
new_clients seen (Call.client_connected client ∷ cs) =
    let known = client == "" || contains seen client in
    (if known then 0 else 1) + new_clients (if known then seen else client ∷ seen) cs
new_clients seen (c ∷ cs) = new_clients seen cs

-- From `n` clients on, no client disconnects that is not connected.
abbrev pub NoSurplus : ℕ → List Call → Type 0
NoSurplus n [] = Unit {0}
NoSurplus n (Call.client_connected client ∷ cs) = NoSurplus (suc n) cs
NoSurplus n (Call.client_disconnected client ∷ cs) = (1 ≤ n) × NoSurplus (n - 1) cs
NoSurplus n (c ∷ cs) = NoSurplus n cs

-- The sum of the counts by client, not wrapped.
unfoldable pub total_counts : List (String × ℕ) → ℕ
total_counts [] = 0
total_counts ((client, n) ∷ m) = n + total_counts m

total_counts-insert :
    (client : String) (m : List (String × ℕ)) (n : ℕ)
    → total_counts (insert client n m) + find_or 0 client m ≡ total_counts m + n
unfolding total_counts insert find_or lookup
total_counts-insert client [] n = omega arith
total_counts-insert client ((j, k) ∷ m) n = ground (arith, total_counts-insert client m n)

find_or-le-total : (client : String) (m : List (String × ℕ)) → find_or 0 client m ≤ total_counts m
unfolding total_counts find_or lookup
find_or-le-total client [] = omega arith
find_or-le-total client ((j, k) ∷ m) = ground (arith, find_or-le-total client m)

total_counts-count_client :
    (client : String) (m : List (String × ℕ))
    → total_counts m + 1 < u64_mod
    → total_counts (count_client client m)
      ≡ (if client == "" then total_counts m else suc (total_counts m))
unfolding count_client
total_counts-count_client client m h =
    ground
      (arith, total_counts-insert client m (bump (find_or 0 client m)), find_or-le-total client m)

sum_counts-total :
    (m : List (String × ℕ)) (total : ℕ)
    → total + total_counts m < u64_mod
    → sum_counts m total ≡ total + total_counts m
unfolding sum_counts total_counts
sum_counts-total [] total h = omega arith
sum_counts-total ((client, n) ∷ m) total h = ground (arith, sum_counts-total m (add64 total n))

-- The counters after calls, from those before.
pub record Counted (m : SessionMonitor) (cs : List Call) (after : SessionMonitor) : Type 0 where
  pub connected : after.total_connections ≡ m.total_connections + connects cs
  pub disconnected : after.total_disconnections ≡ m.total_disconnections + disconnects cs
  pub by_client :
      total_counts after.connections_per_client
      ≡ total_counts m.connections_per_client + named_connects cs
  pub active : m.active_clients + connects cs ≤ after.active_clients + disconnects cs
  pub bounded : after.active_clients ≤ m.active_clients + connects cs

abbrev pub Fits : SessionMonitor → ℕ → Type 0
Fits m n =
    (m.total_connections + n < u64_mod)
    × (m.total_disconnections + n < u64_mod)
    × (m.active_clients + n < u64_mod)
    × (total_counts m.connections_per_client + n < u64_mod)

step-Counted : (c : Call) (m : SessionMonitor) → Fits m 1 → Counted m (c ∷ []) (step c m)
unfolding step connects disconnects named_connects
step-Counted (Call.client_connected client) m f =
    ground (arith, total_counts-count_client client m.connections_per_client)
step-Counted (Call.client_disconnected client) m f = ground arith
step-Counted Call.session_created m f = ground arith
step-Counted c m f = ground arith

counts-cons :
    (c : Call) (cs : List Call)
    → (connects (c ∷ cs) ≡ connects (c ∷ []) + connects cs)
      × (disconnects (c ∷ cs) ≡ disconnects (c ∷ []) + disconnects cs)
      × (named_connects (c ∷ cs) ≡ named_connects (c ∷ []) + named_connects cs)
      × (connects (c ∷ []) ≤ 1)
      × (disconnects (c ∷ []) ≤ 1)
      × (named_connects (c ∷ []) ≤ 1)
unfolding connects disconnects named_connects
counts-cons (Call.client_connected client) cs = ground arith
counts-cons (Call.client_disconnected client) cs = omega arith
counts-cons c cs = omega arith

named_connects-le : (cs : List Call) → named_connects cs ≤ length cs
unfolding named_connects
named_connects-le [] = omega arith
named_connects-le (c ∷ cs) = omega (arith, counts-cons c cs, named_connects-le cs)

run-Counted : (cs : List Call) (m : SessionMonitor) → Fits m (length cs) → Counted m cs (run cs m)
unfolding run
run-Counted [] m f = unfold connects disconnects named_connects in omega arith
run-Counted (c ∷ cs) m f =
    let one = step-Counted c m (omega arith) in
    let counts = counts-cons c cs in
    let rest = run-Counted cs (step c m) (omega (arith, one, counts)) in
    omega (arith, one, counts, rest)

reset-counts :
    (reset.total_connections ≡ 0)
    × (reset.total_disconnections ≡ 0)
    × (reset.active_clients ≡ 0)
    × (total_counts reset.connections_per_client ≡ 0)
unfolding reset total_counts
reset-counts = omega arith

bump-suc : (n : ℕ) → n + 1 < u64_mod → bump n ≡ suc n
unfolding bump
bump-suc n h = omega arith

drop_one_lem : (n : ℕ) → n < u64_mod → drop_one n ≡ n - 1
unfolding drop_one
drop_one_lem n h = ground arith

-- Without a surplus of disconnections the number of active clients is exact.
step-active :
    (c : Call) (cs : List Call) (m : SessionMonitor)
    → m.active_clients + 1 < u64_mod
    → NoSurplus m.active_clients (c ∷ cs)
    → NoSurplus (step c m).active_clients cs
      × ((step c m).active_clients + disconnects (c ∷ []) ≡ m.active_clients + connects (c ∷ []))
unfolding step connects disconnects
step-active (Call.client_connected client) cs m f s =
    (rw (bump-suc m.active_clients f) s, omega (arith, bump-suc m.active_clients f))
step-active (Call.client_disconnected client) cs m f s = (
  rw (drop_one_lem m.active_clients (omega arith)) s.1,
  omega (arith, drop_one_lem m.active_clients (omega arith), s.0),
)
step-active Call.session_created cs m f s = (s, omega arith)
step-active c cs m f s = (s, omega arith)

run-active :
    (cs : List Call) (m : SessionMonitor)
    → m.active_clients + length cs < u64_mod
    → NoSurplus m.active_clients cs
    → (run cs m).active_clients + disconnects cs ≡ m.active_clients + connects cs
unfolding run
run-active [] m f s = unfold connects disconnects in omega arith
run-active (c ∷ cs) m f s =
    let (bound, one) = step-active c cs m (omega arith) s in
    let counts = counts-cons c cs in
    let rest = run-active cs (step c m) (omega (arith, one, counts)) bound in
    omega (arith, one, counts, rest)

mean_connections-total :
    (m : SessionMonitor)
    → total_counts m.connections_per_client < u64_mod
    → mean_connections m ≡ (
        if ltb 0 (length m.connections_per_client)
        then total_counts m.connections_per_client / length m.connections_per_client
        else 0)
unfolding mean_connections
mean_connections-total m f =
    let sum : sum_counts m.connections_per_client 0 ≡ total_counts m.connections_per_client =
      sum_counts-total m.connections_per_client 0 (omega arith) ∙ omega arith in
    rw sum refl

-- The clients that are counted are those that were seen.
unfoldable has_key : String → List (String × ℕ) → Bool
has_key client [] = false
has_key client ((j, k) ∷ m) = if j == client then true else has_key client m

length-insert :
    (client : String) (n : ℕ) (m : List (String × ℕ))
    → length (insert client n m) ≡ (if has_key client m then length m else suc (length m))
unfolding insert has_key
length-insert client n [] = refl
length-insert client n ((j, k) ∷ m) = ground (arith, length-insert client n m)

has_key-insert :
    (client other : String) (n : ℕ) (m : List (String × ℕ))
    → has_key other (insert client n m) ≡ (if client == other then true else has_key other m)
unfolding insert has_key
has_key-insert client other n [] = refl
has_key-insert client other n ((j, k) ∷ m) = ground (
  arith,
  has_key-insert client other n m,
  string_key.same_iff client other,
  string_key.same_iff j other,
  string_key.same_iff j client,
)

-- a client that connects, by whether it is counted already
connect-clients :
    (client : String) (cs : List Call) (m : SessionMonitor) (seen : List String)
    → ((other : String) → has_key other m.connections_per_client ≡ contains seen other)
    → ((m' : SessionMonitor) (seen' : List String)
        → ((other : String) → has_key other m'.connections_per_client ≡ contains seen' other)
        → length (run cs m').connections_per_client
          ≡ length m'.connections_per_client + new_clients seen' cs)
    → length (run cs (step (Call.client_connected client) m)).connections_per_client
      ≡ length m.connections_per_client + new_clients seen (Call.client_connected client ∷ cs)
unfolding step count_client new_clients contains
connect-clients client cs m seen h rest =
    let after : List (String × ℕ) → SessionMonitor = λ counts. record m {
      active_clients = bump m.active_clients;
      total_connections = bump m.total_connections;
      connections_per_client = counts;
    } in
    let counted : List (String × ℕ) =
      insert client (bump (find_or 0 client m.connections_per_client)) m.connections_per_client in
    let more =
      length-insert client (bump (find_or 0 client m.connections_per_client))
        m.connections_per_client in
    let keys = λ (other : String).
      has_key-insert client other (bump (find_or 0 client m.connections_per_client))
        m.connections_per_client in
    elim (Bool-cases (client == "")) [
      | inl e ↦ rw (e, count_client) (rest (after m.connections_per_client) seen h ∙ omega arith)
      | inr e ↦ elim (Bool-cases (contains seen client)) [
        | inl k ↦
            rw (e, k, count_client)
              (rest (after counted) seen (λ other.
                  ground
                    (arith, keys other, h other, h client, k, string_key.same_iff client other))
                ∙ ground (arith, more, h client, k))
        | inr k ↦
            rw (e, k, count_client)
              (rest (after counted) (client ∷ seen) (λ other. ground (arith, keys other, h other))
                ∙ ground (arith, more, h client, k))
      ]
    ]

run-clients :
    (cs : List Call) (m : SessionMonitor) (seen : List String)
    → ((client : String) → has_key client m.connections_per_client ≡ contains seen client)
    → length (run cs m).connections_per_client
      ≡ length m.connections_per_client + new_clients seen cs
unfolding run new_clients step
run-clients [] m seen h = omega arith
run-clients (Call.client_connected client ∷ cs) m seen h =
    connect-clients client cs m seen h (run-clients cs)
run-clients (c ∷ cs) m seen h = run-clients cs (step c m) seen h

-- After fewer than 2 ^ 64 calls from a reset on, in which no client disconnects that is not connected: the
-- active clients are the connections less the disconnections, the totals count both, and the connections
-- per client are those of clients with an identity divided by the number of different identities among
-- them, rounded down, or 0 if there is none.
pub run-balance :
    (cs : List Call)
    → length cs < u64_mod
    → NoSurplus 0 cs
    → ((run cs reset).active_clients + disconnects cs ≡ connects cs)
      × ((run cs reset).total_connections ≡ connects cs)
      × ((run cs reset).total_disconnections ≡ disconnects cs)
      × (mean_connections (run cs reset)
          ≡ (if ltb 0 (new_clients [] cs) then named_connects cs / new_clients [] cs else 0))
run-balance cs f s =
    let (connected, disconnected, active, named) = reset-counts in
    let counted = run-Counted cs reset (omega (arith, connected, disconnected, active, named)) in
    let exact = run-active cs reset (omega (arith, active)) (rw active s) in
    let total : total_counts (run cs reset).connections_per_client ≡ named_connects cs =
      omega (arith, counted.by_client, named) in
    let clients : length (run cs reset).connections_per_client ≡ new_clients [] cs =
      run-clients cs reset [] (unfold reset contains has_key in λ client. refl)
      ∙ (unfold reset in omega arith) in
    (
      omega (arith, exact, active),
      omega (arith, counted.connected, connected),
      omega (arith, counted.disconnected, disconnected),
      mean_connections-total (run cs reset) (omega (arith, total, named_connects-le cs))
          ∙ rw (total, clients) refl,
    )
