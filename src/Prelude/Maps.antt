-- ===== src/Prelude/Maps.antt =====
-- std::map and std::unordered_map as association lists. `insert_sorted` keeps the order of numeric keys, in
-- which a std::map over pointers is walked; the order of a map with text keys is never observed.
use Prim.Native.Nat.{ℕ, suc, ◌≤◌, ◌<◌}
use mathlib.Core.Path.{◌≡◌, refl}
use mathlib.Core.Option.{Option, none, some}
use mathlib.Core.List.{List, [], ◌∷◌}
use native.Mathlib.Omega.{arith}
use datafeed_server.Prelude.Tests.{eqb, ltb, if◌then◌else◌}
use datafeed_server.Prelude.Keys.{Key, ◌==◌, nat_key, count}
use mathlib.Core.Bool.{Bool, true, false}

module _ {ℓ κ} {K : Type ℓ} {V : Type κ} ⦃e : Key K⦄ where
  -- `m.find(key)`
  unfoldable pub lookup : K → List (K × V) → Option V
  lookup key [] = none
  lookup key (entry ∷ rest) = if entry.0 == key then some entry.1 else lookup key rest

  -- `m[key] = value`
  unfoldable pub insert : K → V → List (K × V) → List (K × V)
  insert key value [] = (key, value) ∷ []
  insert key value (entry ∷ rest) =
      if entry.0 == key then (entry.0, value) ∷ rest else entry ∷ insert key value rest

  -- `m.erase(k)`
  unfoldable pub erase : K → List (K × V) → List (K × V)
  erase k [] = []
  erase k ((j, w) ∷ m) = if j == k then erase k m else (j, w) ∷ erase k m

  -- `m[k]` as a value: a missing key reads as the default.
  unfoldable pub find_or : V → K → List (K × V) → V
  find_or d k m = elim (lookup k m) [ none ↦ d | some v ↦ v ]

  -- an entry that was written is read back, and no other changes
  pub lookup-insert :
      (key other : K) (value : V) (m : List (K × V))
      → lookup other (insert key value m) ≡ (if key == other then some value else lookup other m)
  unfolding lookup insert
  lookup-insert key other value [] = refl
  lookup-insert key other value ((i, w) ∷ m) = ground (
    arith,
    lookup-insert key other value m,
    e.same_iff i other,
    e.same_iff key other,
    e.same_iff i key,
  )

  pub lookup-erase :
      (k j : K) (m : List (K × V)) → lookup j (erase k m) ≡ (if k == j then none else lookup j m)
  unfolding lookup erase
  lookup-erase k j [] = ground arith
  lookup-erase k j ((i, w) ∷ m) =
      ground (arith, e.same_iff k j, e.same_iff i k, e.same_iff i j, lookup-erase k j m)

  pub find_or-insert :
      (d : V) (k j : K) (v : V) (m : List (K × V))
      → find_or d j (insert k v m) ≡ (if k == j then v else find_or d j m)
  unfolding find_or
  find_or-insert d k j v m = ground (arith, lookup-insert k j v m)

module _ {κ} {V : Type κ} where
  -- `m[k] = v` in a map that is sorted by its numeric keys
  unfoldable pub insert_sorted : ℕ → V → List (ℕ × V) → List (ℕ × V)
  insert_sorted k v [] = (k, v) ∷ []
  insert_sorted k v ((j, w) ∷ m) =
      if eqb j k
      then (k, v) ∷ m
      else if ltb k j
      then (k, v) ∷ (j, w) ∷ m
      else (j, w) ∷ insert_sorted k v m

  pub lookup-insert_sorted :
      (k j : ℕ) (v : V) (m : List (ℕ × V))
      → lookup j (insert_sorted k v m) ≡ (if eqb k j then some v else lookup j m)
  unfolding lookup insert_sorted
  lookup-insert_sorted k j v [] = refl
  lookup-insert_sorted k j v ((i, w) ∷ m) = ground (arith, lookup-insert_sorted k j v m)

  -- The keys ascend from a bound on.
  abbrev pub AscendsFrom : ℕ → List (ℕ × V) → Type 0
  AscendsFrom b [] = Unit {0}
  AscendsFrom b ((j, w) ∷ m) = (b ≤ j) × AscendsFrom (suc j) m

  pub AscendsFrom-mono : (a b : ℕ) (m : List (ℕ × V)) → a ≤ b → AscendsFrom b m → AscendsFrom a m
  AscendsFrom-mono a b [] h v = tt
  AscendsFrom-mono a b ((j, w) ∷ m) h v = (omega arith, v.1)

  pub insert_sorted-AscendsFrom :
      (b k : ℕ) (v : V) (m : List (ℕ × V))
      → b ≤ k
      → AscendsFrom b m
      → AscendsFrom b (insert_sorted k v m)
  unfolding insert_sorted
  insert_sorted-AscendsFrom b k v [] h a = (h, tt)
  insert_sorted-AscendsFrom b k v ((j, w) ∷ m) h a =
      ground (arith, insert_sorted-AscendsFrom (suc j) k v m, AscendsFrom-mono (suc k) (suc j) m)

  pub erase-AscendsFrom : (b k : ℕ) (m : List (ℕ × V)) → AscendsFrom b m → AscendsFrom b (erase k m)
  unfolding erase
  erase-AscendsFrom b k [] a = tt
  erase-AscendsFrom b k ((j, w) ∷ m) a =
      ground (arith, erase-AscendsFrom (suc j) k m, AscendsFrom-mono b (suc j) (erase k m))

  abbrev pub keys : List (ℕ × V) → List ℕ
  keys [] = []
  keys ((j, w) ∷ m) = j ∷ keys m

  pub count_below : (b k : ℕ) (m : List (ℕ × V)) → AscendsFrom b m → k < b → count k (keys m) ≡ 0
  unfolding count
  count_below b k [] a h = refl
  count_below b k ((j, w) ∷ m) a h = ground (arith, count_below (suc j) k m)

  pub lookup_below : (b k : ℕ) (m : List (ℕ × V)) → AscendsFrom b m → k < b → lookup k m ≡ none
  unfolding lookup
  lookup_below b k [] a h = refl
  lookup_below b k ((j, w) ∷ m) a h = ground (arith, lookup_below (suc j) k m)

  abbrev pub has_key : ℕ → List (ℕ × V) → Bool
  has_key k m = elim (lookup k m) [ none ↦ false | some v ↦ true ]

  -- Each key of an ascending map stands in it once.
  pub count-keys :
      (b k : ℕ) (m : List (ℕ × V))
      → AscendsFrom b m
      → count k (keys m) ≡ (if has_key k m then 1 else 0)
  unfolding count lookup
  count-keys b k [] a = refl
  count-keys b k ((j, w) ∷ m) a =
      ground (arith, count-keys (suc j) k m, count_below (suc j) k m, lookup_below (suc j) k m)
