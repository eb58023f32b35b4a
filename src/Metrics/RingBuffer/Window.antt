-- ===== src/Metrics/RingBuffer/Window.antt =====
-- The items of metrics/ring_buffer.h at consecutive indices, going round, and what a write does to them.
use native.Mathlib.Nat.{mod-add-mod, mod-eq_of_lt, mod-eq-sub-mod}
use native.Mathlib.Decide.{dec_lt}
use datafeed_server.Prelude.{
  ℕ, zero, suc, ◌+◌, ◌-◌, ◌%◌, ◌^◌, ◌≤◌, ◌<◌, ◌≡◌, ◌≢◌, refl, sym, ap, ◌∙◌, List, [], ◌∷◌, ◌++◌,
  arith, length, get_or, set, get_or-set_ne, add64,
}
use datafeed_server.Metrics.RingBuffer.{visit}

next-mod : (c j k : ℕ) → j % c ≡ k % c → (j + 1) % c ≡ (k + 1) % c
next-mod c j k e = sym (mod-add-mod j c 1) ∙ ap (λ (t : ℕ). (t + 1) % c) e ∙ mod-add-mod k c 1

-- Strictly between `h` and `h + c` no number is `h` modulo `c`.
between-mod : (c h j : ℕ) → h < c → h < j → j < h + c → j % c ≢ h
between-mod c h j hc lo hi = elim (dec_lt j c) [
  | yes p ↦ omega (arith, mod-eq_of_lt p)
  | no p ↦ omega (
    arith,
    mod-eq-sub-mod {n = j} {m = c} (omega arith),
    mod-eq_of_lt {n = j - c} {m = c} (omega arith),
  )
]

module _ {ℓ} {A : Type ℓ} (c : ℕ) (blank : A) where
  -- the `n` items at the indices from `j` on, going round
  abbrev pub window : List A → ℕ → ℕ → List A
  window items j zero = []
  window items j (suc n) = get_or items (j % c) blank ∷ window items (j + 1) n

  pub window-mod :
      (items : List A) (j k n : ℕ) → j % c ≡ k % c → window items j n ≡ window items k n
  window-mod items j k zero e = refl
  window-mod items j k (suc n) e = rw (e, window-mod items (j + 1) (k + 1) n (next-mod c j k e))

  pub window-snoc :
      (items : List A) (j n : ℕ)
      → window items j (suc n) ≡ window items j n ++ (get_or items ((j + n) % c) blank ∷ [])
  window-snoc items j zero = ap (λ (t : ℕ). get_or items (t % c) blank ∷ []) (omega arith)
  window-snoc items j (suc n) =
      ap (λ l. get_or items (j % c) blank ∷ l)
        (window-snoc items (j + 1) n
          ∙ ap (λ (t : ℕ). window items (j + 1) n ++ (get_or items (t % c) blank ∷ []))
              (omega arith))

  pub window-set :
      (items : List A) (h j n : ℕ) (x : A)
      → h < c
      → h < j
      → j + n ≤ h + c
      → window (set items h x) j n ≡ window items j n
  window-set items h j zero x hc lo hi = refl
  window-set items h j (suc n) x hc lo hi = rw (
    get_or-set_ne items h (j % c) x blank (λ e. between-mod c h j hc lo (omega arith) (sym e)),
    window-set items h (j + 1) n x hc (omega arith) (omega arith),
  )

  pub length-window : (items : List A) (j n : ℕ) → length (window items j n) ≡ n
  length-window items j zero = refl
  length-window items j (suc n) = ap suc (length-window items (j + 1) n)

  pub visit-window :
      (items : List A) (start i n : ℕ)
      → start + i + n < 2 ^ 64
      → visit c blank items start i n ≡ window items (start + i) n
  unfolding visit
  visit-window items start i zero h = refl
  visit-window items start i (suc n) h =
      let sum : add64 start i ≡ start + i = omega arith in
      let next : add64 i 1 ≡ i + 1 = omega arith in
      rw (sum, next, visit-window items start (i + 1) n (omega arith))
        (ap (λ (t : ℕ). get_or items ((start + i) % c) blank ∷ window items t n) (omega arith))
