-- ===== src/Metrics/LatencyTracker/Extremes.antt =====
-- The least and the greatest sample in metrics/latency_tracker.cpp.
use mathlib.Core.List.{Memᴰ}
use datafeed_server.Prelude.{
  ℕ, ◌≡◌, refl, ◌∙◌, sym, subst, ◌⊎◌, inl, inr, Bool, true, false, List, [], ◌∷◌, if◌then◌else◌,
  arith, Bool-cases,
}
use datafeed_server.Metrics.LatencyTracker.{DoubleArithmetic, least, greatest, stats_of}

-- The loop, by what comes before what.
module _ {A : Type 0} (before : A → A → Bool) where
  -- no element comes before
  abbrev pub IsFirst : A → List A → Type 0
  IsFirst m [] = Unit {0}
  IsFirst m (x ∷ xs) = (before x m ≡ false) × IsFirst m xs

  unfoldable pub extreme : A → List A → A
  extreme m [] = m
  extreme m (x ∷ xs) = extreme (if before x m then x else m) xs

  skip_second : (m x : A) (xs : List A) (r : A) → Memᴰ r (m ∷ xs) → Memᴰ r (m ∷ x ∷ xs)
  skip_second m x xs r (Memᴰ.head e) = Memᴰ.head e
  skip_second m x xs r (Memᴰ.tail t) = Memᴰ.tail (Memᴰ.tail t)

  pub extreme-Mem : (m : A) (xs : List A) → Memᴰ (extreme m xs) (m ∷ xs)
  unfolding extreme
  extreme-Mem m [] = Memᴰ.head refl
  extreme-Mem m (x ∷ xs) = elim (Bool-cases (before x m)) [
    | inl e ↦ rw e (Memᴰ.tail (extreme-Mem x xs))
    | inr e ↦ rw e (skip_second m x xs (extreme m xs) (extreme-Mem m xs))
  ]

  extreme-lower : (m x : A) (xs : List A) → before x m ≡ true → extreme m (x ∷ xs) ≡ extreme x xs
  unfolding extreme
  extreme-lower m x xs e = rw e refl

  extreme-kept : (m x : A) (xs : List A) → before x m ≡ false → extreme m (x ∷ xs) ≡ extreme m xs
  unfolding extreme
  extreme-kept m x xs e = rw e refl

  -- the start may stand in the list again
  pub extreme-again : (m : A) (xs : List A) → extreme m (m ∷ xs) ≡ extreme m xs
  extreme-again m xs = elim (Bool-cases (before m m)) [
    | inl e ↦ extreme-lower m m xs e
    | inr e ↦ extreme-kept m m xs e
  ]

  module _ (irreflexive : (a : A) → before a a ≡ false)
      (transitive : (a b c : A) → before a b ≡ true → before b c ≡ true → before a c ≡ true) where
    -- the result is the start or comes before it
    extreme-start : (m : A) (xs : List A) → (extreme m xs ≡ m) ⊎ (before (extreme m xs) m ≡ true)
    unfolding extreme
    extreme-start m [] = inl refl
    extreme-start m (x ∷ xs) = elim (Bool-cases (before x m)) [
      | inl e ↦ rw e (elim (extreme-start x xs) [
        | inl same ↦ inr (rw same e)
        | inr lower ↦ inr (transitive (extreme x xs) x m lower e)
      ])
      | inr e ↦ rw e (extreme-start m xs)
    ]

    not_before : (m x : A) (xs : List A) → before x m ≡ false → before x (extreme m xs) ≡ false
    not_before m x xs e = elim (extreme-start m xs) [
      | inl same ↦ rw same e
      | inr lower ↦ ground (arith, transitive x (extreme m xs) m)
    ]

    below : (m x r : A) → before x m ≡ true → before x r ≡ false → before m r ≡ false
    below m x r e f = ground (arith, transitive x m r)

    pub extreme-IsFirst : (m : A) (xs : List A) → IsFirst (extreme m xs) (m ∷ xs)
    unfolding extreme
    extreme-IsFirst m [] = (irreflexive m, tt)
    extreme-IsFirst m (x ∷ xs) = elim (Bool-cases (before x m)) [
      | inl e ↦
          let (here, later) = extreme-IsFirst x xs in
          subst (λ r. IsFirst r (m ∷ x ∷ xs)) (sym (extreme-lower m x xs e))
            (below m x (extreme x xs) e here, (here, later))
      | inr e ↦
          let (here, later) = extreme-IsFirst m xs in
          subst (λ r. IsFirst r (m ∷ x ∷ xs)) (sym (extreme-kept m x xs e))
            (here, (not_before m x xs e, later))
    ]

module _ (arithmetic : DoubleArithmetic) where
  open arithmetic use {Double, less}

  least-extreme : (m : Double) (xs : List Double) → least arithmetic m xs ≡ extreme less m xs
  unfolding least extreme
  least-extreme m [] = refl
  least-extreme m (x ∷ xs) = least-extreme (if less x m then x else m) xs

  greatest-extreme :
      (m : Double) (xs : List Double) → greatest arithmetic m xs ≡ extreme (λ a b. less b a) m xs
  unfolding greatest extreme
  greatest-extreme m [] = refl
  greatest-extreme m (x ∷ xs) = greatest-extreme (if less m x then x else m) xs

  -- Where `<` is irreflexive and transitive, as it is on `double` even with NaN, the reported minimum and
  -- maximum are samples; no sample is less than the minimum, and the maximum is less than no sample.
  pub stats_of-extremes :
      (irreflexive : (a : Double) → less a a ≡ false)
      (transitive : (a b c : Double) → less a b ≡ true → less b c ≡ true → less a c ≡ true)
      (sum : Double) (valid : ℕ) (first : Double) (rest : List Double)
      → Memᴰ (stats_of arithmetic sum valid (first ∷ rest)).min (first ∷ rest)
        × IsFirst less (stats_of arithmetic sum valid (first ∷ rest)).min (first ∷ rest)
        × Memᴰ (stats_of arithmetic sum valid (first ∷ rest)).max (first ∷ rest)
        × IsFirst
            (λ a b. less b a)
            (stats_of arithmetic sum valid (first ∷ rest)).max
            (first ∷ rest)
  unfolding stats_of
  stats_of-extremes irreflexive transitive sum valid first rest =
      let min = least-extreme first (first ∷ rest) ∙ extreme-again less first rest in
      let max =
        greatest-extreme first (first ∷ rest) ∙ extreme-again (λ a b. less b a) first rest in
      (
        subst (λ r. Memᴰ r (first ∷ rest)) (sym min) (extreme-Mem less first rest),
        subst (λ r. IsFirst less r (first ∷ rest)) (sym min)
            (extreme-IsFirst less irreflexive transitive first rest),
        subst (λ r. Memᴰ r (first ∷ rest)) (sym max) (extreme-Mem (λ a b. less b a) first rest),
        subst (λ r. IsFirst (λ a b. less b a) r (first ∷ rest)) (sym max)
            (extreme-IsFirst (λ a b. less b a) irreflexive (λ a b c h k. transitive c b a k h) first
              rest),
      )
