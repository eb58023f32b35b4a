-- ===== src/Metrics/RingBuffer/History.antt =====
-- What metrics/ring_buffer.h holds after any pushes.
use native.Mathlib.Nat.{mod-eq_of_lt, mod-eq-sub-mod, add-mod_right}
use native.Mathlib.Decide.{dec_lt}
use mathlib.Core.List.{append_assoc, append-nil}
use datafeed_server.Prelude.{
  ℕ, ◌+◌, ◌-◌, ◌%◌, ◌^◌, ◌≤◌, ◌<◌, ◌≡◌, refl, sym, ap, ◌∙◌, List, [], ◌∷◌, ◌++◌, arith, length,
  length-append, get_or-set_self, drop, drop-append, drop-drop, length-drop, false, add64, sub64,
}
use datafeed_server.Metrics.RingBuffer.{RingBuffer, push, clear, for_each, latest, empty}
use datafeed_server.Metrics.RingBuffer.Invariant.{IsValid, push-IsValid}
use datafeed_server.Metrics.RingBuffer.Window.{length-window}
use datafeed_server.Metrics.RingBuffer.Contents.{
  keep_last, contents, for_each-contents, contents-push,
}

module _ {ℓ} {A : Type ℓ} (c : ℕ) (blank : A) where
  unfoldable pub push_all : List A → RingBuffer A → RingBuffer A
  push_all [] r = r
  push_all (x ∷ xs) r = push_all xs (push c blank x r)

  pub keep_last-append :
      (xs ys : List A) → keep_last c (keep_last c xs ++ ys) ≡ keep_last c (xs ++ ys)
  keep_last-append xs ys =
      let k : ℕ = length xs - c in
      rw (← drop-append k xs ys (omega arith), drop-drop, length-drop k (xs ++ ys))
        (ap (λ (t : ℕ). drop t (xs ++ ys)) (omega (arith, length-append xs ys)))

  fits : (r : RingBuffer A) → IsValid c blank r → length (contents c blank r) - c ≡ 0
  fits r v = omega (arith, length-window c blank r.items (r.head + c - r.size) r.size)

  contents-push_all :
      (xs : List A) (r : RingBuffer A)
      → IsValid c blank r
      → IsValid c blank (push_all xs r)
        × (contents c blank (push_all xs r) ≡ keep_last c (contents c blank r ++ xs))
  unfolding push_all
  contents-push_all [] r v = (
    v,
    sym (
        rw (append-nil (contents c blank r))
          (ap (λ (t : ℕ). drop t (contents c blank r)) (fits r v))),
  )
  contents-push_all (x ∷ xs) r v =
      let (w, e) = contents-push_all xs (push c blank x r) (push-IsValid c blank x r v) in
      (
        w,
        e
            ∙ ap (λ l. keep_last c (l ++ xs)) (contents-push c blank x r v)
            ∙ keep_last-append (contents c blank r ++ (x ∷ [])) xs
            ∙ ap (keep_last c) (append_assoc (contents c blank r) (x ∷ []) xs),
      )

  -- `forEach` visits the last `Capacity` of the items visited before and those pushed since, in order:
  -- nothing else is lost, and an item is overwritten only when `Capacity` later ones were pushed.
  pub for_each-push_all :
      (xs : List A) (r : RingBuffer A)
      → IsValid c blank r
      → for_each c blank (push_all xs r) ≡ keep_last c (for_each c blank r ++ xs)
  for_each-push_all xs r v =
      let (w, e) = contents-push_all xs r v in
      for_each-contents c blank (push_all xs r) w
      ∙ e
      ∙ ap (λ l. keep_last c (l ++ xs)) (sym (for_each-contents c blank r v))

  -- the same for one push
  pub for_each-push :
      (x : A) (r : RingBuffer A)
      → IsValid c blank r
      → for_each c blank (push c blank x r) ≡ keep_last c (for_each c blank r ++ (x ∷ []))
  unfolding push_all
  for_each-push x r v = for_each-push_all (x ∷ []) r v

  -- The index before the moved head is the old head.
  back-mod : (h : ℕ) → h < c → c ≤ 2 ^ 63 → sub64 (add64 (add64 h 1 % c) c) 1 % c ≡ h
  back-mod h hc small = elim (dec_lt (h + 1) c) [
    | yes p ↦
        let moved : add64 h 1 ≡ h + 1 = omega arith in
        let index : sub64 (add64 (h + 1) c) 1 ≡ h + c = omega arith in
        rw (moved, mod-eq_of_lt p, index) (add-mod_right h c ∙ mod-eq_of_lt hc)
    | no p ↦
        let moved : add64 h 1 ≡ h + 1 = omega arith in
        let wrap : (h + 1) % c ≡ 0 = omega (
          arith,
          mod-eq-sub-mod {n = h + 1} {m = c} (omega arith),
          mod-eq_of_lt {n = h + 1 - c} {m = c} (omega arith),
        ) in
        let index : sub64 (add64 0 c) 1 ≡ h = omega arith in
        rw (moved, wrap, index) (mod-eq_of_lt hc)
  ]

  -- `latest` returns the item that was pushed last, and `T{}` after `clear`; then `forEach` visits nothing.
  pub latest-push :
      (item : A) (r : RingBuffer A)
      → IsValid c blank r
      → (latest c blank (push c blank item r) ≡ item)
        × (latest c blank (clear c blank r) ≡ blank)
        × (for_each c blank (clear c blank r) ≡ [])
        × (empty c blank (push c blank item r) ≡ false)
  unfolding latest push clear for_each empty
  latest-push item r v = (
    ground (
      arith,
      back-mod r.head v.head_in v.small,
      get_or-set_self r.items r.head item blank (omega (arith, v.storage)),
    ),
    refl,
    refl,
    ground arith,
  )
