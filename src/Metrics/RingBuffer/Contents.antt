-- ===== src/Metrics/RingBuffer/Contents.antt =====
-- What `forEach` of metrics/ring_buffer.h visits, and what a push changes of it.
use native.Mathlib.Nat.{mod-add-mod, mod-eq_of_lt, mod-eq-sub-mod, add-mod_right}
use native.Mathlib.Numerals.{add-one}
use native.Mathlib.Decide.{dec_lt}
use datafeed_server.Prelude.{
  ℕ, suc, ◌+◌, ◌-◌, ◌%◌, ◌<◌, ◌≡◌, sym, ap, ◌∙◌, inl, inr, List, [], ◌∷◌, ◌++◌, arith, length,
  length-append, get_or, set, get_or-set_self, drop, true, eqb, add64, sub64, Bool-cases, lt→ltb,
  le→not-ltb, subst,
}
use datafeed_server.Metrics.RingBuffer.{RingBuffer, push, for_each}
use datafeed_server.Metrics.RingBuffer.Invariant.{IsValid}
use datafeed_server.Metrics.RingBuffer.Window.{
  window, window-mod, window-snoc, window-set, visit-window, length-window,
}

-- the last `n` items of a list
abbrev pub keep_last {ℓ} : {A : Type ℓ} → ℕ → List A → List A
keep_last n xs = drop (length xs - n) xs

module _ {ℓ} {A : Type ℓ} (c : ℕ) (blank : A) where
  zero_size : {n : ℕ} → eqb n 0 ≡ true → n ≡ 0
  zero_size e = ground arith

  -- what `forEach` visits: the items before the head, as many as there are
  abbrev pub contents : RingBuffer A → List A
  contents r = window c blank r.items (r.head + c - r.size) r.size

  pub for_each-contents : (r : RingBuffer A) → IsValid c blank r → for_each c blank r ≡ contents r
  unfolding for_each
  for_each-contents r v = elim (Bool-cases (eqb r.size 0)) [
    | inl e ↦
        rw (e, for_each)
          (ap (λ (n : ℕ). window c blank r.items (r.head + c - n) n) (sym (zero_size e)))
    | inr e ↦
        let start : sub64 (add64 r.head c) r.size ≡ r.head + c - r.size = omega arith in
        rw (e, for_each, start)
          (visit-window c blank r.items ((r.head + c - r.size) % c) 0 r.size (omega arith)
            ∙ window-mod c blank r.items ((r.head + c - r.size) % c + 0) (r.head + c - r.size)
                r.size
                (mod-add-mod (r.head + c - r.size) c 0 ∙ ap (λ (t : ℕ). t % c) (omega arith)))
  ]

  -- The head moves on by one, and with it the first index of the window.
  moved-mod : (h n : ℕ) → h < c → n < c → ((h + 1) % c + c - (n + 1)) % c ≡ (h + c - n) % c
  moved-mod h n hc nc = elim (dec_lt (h + 1) c) [
    | yes p ↦ ap (λ (t : ℕ). t % c) (omega (arith, mod-eq_of_lt p))
    | no p ↦
        let e : (h + 1) % c ≡ 0 = omega (
          arith,
          mod-eq-sub-mod {n = h + 1} {m = c} (omega arith),
          mod-eq_of_lt {n = h + 1 - c} {m = c} (omega arith),
        ) in
        rw e (sym (add-mod_right (0 + c - (n + 1)) c) ∙ ap (λ (t : ℕ). t % c) (omega arith))
  ]

  module _ (items : List A) (h : ℕ) (x : A) (hc : h < c) (len : length items ≡ c) where
    -- the item that was just written
    written : (j : ℕ) → j % c ≡ h → get_or (set items h x) (j % c) blank ≡ x
    written j e = rw e (get_or-set_self items h x blank (omega arith))

    back : (n : ℕ) → n < c → h + c - n + n ≡ h + c
    back n nc = omega arith

    push_room :
        (n : ℕ)
        → n < c
        → window c blank (set items h x) ((h + 1) % c + c - (n + 1)) (suc n)
          ≡ window c blank items (h + c - n) n ++ (x ∷ [])
    push_room n nc =
        window-mod c blank (set items h x) ((h + 1) % c + c - (n + 1)) (h + c - n) (suc n)
          (moved-mod h n hc nc)
        ∙ window-snoc c blank (set items h x) (h + c - n) n
        ∙ rw (
          written (h + c - n + n)
              (ap (λ (t : ℕ). t % c) (back n nc) ∙ add-mod_right h c ∙ mod-eq_of_lt hc),
          window-set c blank items h (h + c - n) n x hc (omega arith) (omega arith),
        )

    around : (d : ℕ) → c ≡ suc d → h + 1 + d ≡ h + c
    around d e = omega arith

    push_full :
        (d : ℕ)
        → c ≡ suc d
        → window c blank (set items h x) ((h + 1) % c + c - c) c
          ≡ drop 1 (window c blank items (h + c - c) c ++ (x ∷ []))
    push_full d e =
        window-mod c blank (set items h x) ((h + 1) % c + c - c) (h + 1) c (
          ap (λ (t : ℕ). t % c) (omega arith)
          ∙ mod-add-mod (h + 1) c 0
          ∙ ap (λ (t : ℕ). t % c) (omega arith))
        ∙ ap (window c blank (set items h x) (h + 1)) e
        ∙ window-snoc c blank (set items h x) (h + 1) d
        ∙ rw
            (
              written (h + 1 + d)
                  (ap (λ (t : ℕ). t % c) (around d e) ∙ add-mod_right h c ∙ mod-eq_of_lt hc),
              window-set c blank items h (h + 1) d x hc (omega arith) (omega arith),
            )
            (ap (λ (t : ℕ). window c blank items t d ++ (x ∷ [])) (omega arith)
              ∙ ap (λ (t : ℕ). drop 1 (window c blank items (h + c - c) t ++ (x ∷ []))) (sym e))

  measured : (item : A) (r : RingBuffer A) → length (contents r ++ (item ∷ [])) ≡ r.size + 1
  measured item r = omega (
    arith,
    length-append (contents r) (item ∷ []),
    length-window c blank r.items (r.head + c - r.size) r.size,
  )

  room : (item : A) (r : RingBuffer A) → r.size < c → length (contents r ++ (item ∷ [])) - c ≡ 0
  room item r p = omega (arith, measured item r)

  no_room : (item : A) (r : RingBuffer A) → r.size ≡ c → length (contents r ++ (item ∷ [])) - c ≡ 1
  no_room item r p = omega (arith, measured item r)

  -- A push adds the item behind the contents, and drops the oldest item if there is no room.
  pub contents-push :
      (item : A) (r : RingBuffer A)
      → IsValid c blank r
      → contents (push c blank item r) ≡ keep_last c (contents r ++ (item ∷ []))
  unfolding push
  contents-push item r v = elim (dec_lt r.size c) [
    | yes p ↦
        let grown : add64 r.size 1 ≡ r.size + 1 = omega arith in
        let moved : add64 r.head 1 ≡ r.head + 1 = omega arith in
        rw (lt→ltb r.size c p, grown, moved)
          (ap
              (λ (t : ℕ).
                window c blank (set r.items r.head item) ((r.head + 1) % c + c - (r.size + 1)) t)
              (add-one r.size)
            ∙ push_room r.items r.head item v.head_in v.storage r.size p
            ∙ sym (ap (λ (t : ℕ). drop t (contents r ++ (item ∷ []))) (room item r p)))
    | no p ↦
        let full : r.size ≡ c = omega (arith, v.size_in) in
        let moved : add64 r.head 1 ≡ r.head + 1 = omega arith in
        rw (le→not-ltb r.size c (omega arith), moved)
          (rw full (
            push_full r.items r.head item v.head_in v.storage (c - 1) (omega arith)
            ∙ ap (λ (t : ℕ). drop t (window c blank r.items (r.head + c - c) c ++ (item ∷ [])))
                (sym (
                  subst
                    (λ (n : ℕ).
                      length (window c blank r.items (r.head + c - n) n ++ (item ∷ [])) - c ≡ 1)
                    full (no_room item r full)))))
  ]
