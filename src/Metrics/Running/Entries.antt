-- ===== src/Metrics/Running/Entries.antt =====
-- The loops of class MetricAggregator (metrics/metric_aggregator.cpp) over a map of statistics, which keep a
-- running state for each key: `auto& r = running_[key];` and a change of `r`.
use datafeed_server.Prelude.{
  ◌≡◌, refl, sym, ap, ◌∙◌, List, [], ◌∷◌, ◌++◌, Option, none, some, Key, ◌==◌, lookup, insert,
  find_or, lookup-insert, if◌then◌else◌, arith,
}

module _ {V R : Type 0} (add : V → R → R) (fresh : R) where
  -- the running state, if there is one, after values of its key
  unfoldable pub continued : Option R → List V → Option R
  continued o [] = o
  continued none (v ∷ vs) = continued (some (add v fresh)) vs
  continued (some r) (v ∷ vs) = continued (some (add v r)) vs

  continued-append :
      (o : Option R) (vs ws : List V) → continued o (vs ++ ws) ≡ continued (continued o vs) ws
  unfolding continued
  continued-append o [] ws = refl
  continued-append none (v ∷ vs) ws = continued-append (some (add v fresh)) vs ws
  continued-append (some r) (v ∷ vs) ws = continued-append (some (add v r)) vs ws

module _ {K V : Type 0} ⦃e : Key K⦄ where
  -- the values of a key in a map, and in the maps of several snapshots, in order
  unfoldable pub values_in : K → List (K × V) → List V
  values_in k [] = []
  values_in k ((j, v) ∷ rest) = if j == k then v ∷ values_in k rest else values_in k rest

  unfoldable pub values_of : K → List (List (K × V)) → List V
  unfolding values_in
  values_of k [] = []
  values_of k (m ∷ ms) = values_in k m ++ values_of k ms

module _ {K V R : Type 0} ⦃e : Key K⦄ (add : V → R → R) (fresh : R) where
  unfoldable pub add_entries : List (K × V) → List (K × R) → List (K × R)
  add_entries [] running = running
  add_entries ((k, v) ∷ rest) running =
      add_entries rest (insert k (add v (find_or fresh k running)) running)

  unfoldable pub add_maps : List (List (K × V)) → List (K × R) → List (K × R)
  add_maps [] running = running
  add_maps (m ∷ ms) running = add_maps ms (add_entries m running)

  add_entry :
      (k j : K) (v : V) (rest : List (K × V)) (running : List (K × R))
      → continued add fresh
          (lookup k (insert j (add v (find_or fresh j running)) running))
          (values_in k rest)
        ≡ continued add fresh (lookup k running) (values_in k ((j, v) ∷ rest))
  unfolding values_in continued find_or
  add_entry k j v rest running =
      ground (arith, e.same_iff j k, lookup-insert j k (add v (find_or fresh j running)) running)

  lookup-add_entries :
      (k : K) (m : List (K × V)) (running : List (K × R))
      → lookup k (add_entries m running) ≡ continued add fresh (lookup k running) (values_in k m)
  unfolding add_entries
  lookup-add_entries k [] running = unfold values_in continued in refl
  lookup-add_entries k ((j, v) ∷ rest) running =
      lookup-add_entries k rest (insert j (add v (find_or fresh j running)) running)
      ∙ add_entry k j v rest running

  -- A key's running state depends only on the values of the key, in order.
  pub lookup-add_maps :
      (k : K) (ms : List (List (K × V))) (running : List (K × R))
      → lookup k (add_maps ms running) ≡ continued add fresh (lookup k running) (values_of k ms)
  unfolding add_maps values_of
  lookup-add_maps k [] running = unfold continued in refl
  lookup-add_maps k (m ∷ ms) running =
      lookup-add_maps k ms (add_entries m running)
      ∙ ap (λ o. continued add fresh o (values_of k ms)) (lookup-add_entries k m running)
      ∙ sym (continued-append add fresh (lookup k running) (values_in k m) (values_of k ms))

-- `for (const auto& [key, r] : running_) out[key] = f(r);` into an empty map; no key stands in the map twice
module _ {K R S : Type 0} ⦃e : Key K⦄ (f : R → S) where
  unfoldable pub report_entries : List (K × R) → List (K × S)
  report_entries [] = []
  report_entries ((k, r) ∷ rest) = (k, f r) ∷ report_entries rest

  pub lookup-report_entries :
      (k : K) (m : List (K × R))
      → lookup k (report_entries m) ≡ elim (lookup k m) [ none ↦ none | some r ↦ some (f r) ]
  unfolding lookup report_entries
  lookup-report_entries k [] = refl
  lookup-report_entries k ((j, r) ∷ m) = ground (arith, lookup-report_entries k m)
