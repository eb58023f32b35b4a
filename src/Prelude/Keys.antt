-- ===== src/Prelude/Keys.antt =====
-- Equality of keys as an interface, and the vector searches over it: std::find and std::remove.
use Prim.Native.Nat.{ℕ, suc, ◌+◌, ◌≤◌}
use Prim.Native.String.{String}
use mathlib.Core.Path.{◌≡◌, refl}
use mathlib.Core.Logic.{◌↔◌}
use mathlib.Core.Bool.{Bool, true, false, ◌||◌}
use mathlib.Core.List.{List, [], ◌∷◌, ◌++◌}
use native.Mathlib.Omega.{arith}
use text.Mathlib.Text.{◌==◌ as same_text}
use text.Mathlib.TextEquality.{eq_iff}
use datafeed_server.Prelude.Tests.{eqb, eqb_iff, if◌then◌else◌}

pub record Key {ℓ} (A : Type ℓ) : Type ℓ where
  pub same : A → A → Bool
  pub same_iff : (a b : A) → (same a b ≡ true) ↔ (a ≡ b)

infix 50 ◌==◌
abbrev pub ◌==◌ {ℓ} : {A : Type ℓ} ⦃e : Key A⦄ → A → A → Bool
◌==◌ ⦃e⦄ = e.same

instance abbrev pub nat_key : Key ℕ
nat_key = record { same = eqb; same_iff = eqb_iff }

instance abbrev pub string_key : Key String
string_key = record { same = same_text; same_iff = eq_iff }

module _ {ℓ} {A : Type ℓ} ⦃e : Key A⦄ where
  pub key_refl : (a : A) → (a == a) ≡ true
  key_refl a = (e.same_iff a a).1 refl

  -- `std::find(xs.begin(), xs.end(), a) != xs.end()`
  unfoldable pub contains : List A → A → Bool
  contains [] a = false
  contains (x ∷ xs) a = x == a || contains xs a

  -- `xs.erase(std::remove(xs.begin(), xs.end(), a), xs.end())`
  unfoldable pub remove : A → List A → List A
  remove a [] = []
  remove a (x ∷ xs) = if x == a then remove a xs else x ∷ remove a xs

  -- `if (std::find(...) == xs.end()) xs.push_back(a)`
  unfoldable pub push_absent : A → List A → List A
  push_absent a xs = if contains xs a then xs else xs ++ (a ∷ [])

  unfoldable pub count : A → List A → ℕ
  count a [] = 0
  count a (x ∷ xs) = if x == a then suc (count a xs) else count a xs

  pub contains-append :
      (xs ys : List A) (b : A) → contains (xs ++ ys) b ≡ (contains xs b || contains ys b)
  unfolding contains
  contains-append [] ys b = refl
  contains-append (x ∷ xs) ys b = ground (arith, contains-append xs ys b)

  pub contains-remove :
      (a b : A) (xs : List A) → contains (remove a xs) b ≡ (if a == b then false else contains xs b)
  unfolding contains remove
  contains-remove a b [] = ground arith
  contains-remove a b (x ∷ xs) =
      ground (arith, e.same_iff a b, e.same_iff x a, e.same_iff x b, contains-remove a b xs)

  pub contains-push_absent :
      (a b : A) (xs : List A) → contains (push_absent a xs) b ≡ (a == b || contains xs b)
  unfolding contains push_absent
  contains-push_absent a b xs = ground (arith, e.same_iff a b, contains-append xs (a ∷ []) b)

  pub count-append : (a : A) (xs ys : List A) → count a (xs ++ ys) ≡ count a xs + count a ys
  unfolding count
  count-append a [] ys = omega arith
  count-append a (x ∷ xs) ys = ground (arith, count-append a xs ys)

  pub count_absent : (a : A) (xs : List A) → contains xs a ≡ false → count a xs ≡ 0
  unfolding count contains
  count_absent a [] h = refl
  count_absent a (x ∷ xs) h = ground (arith, count_absent a xs)

  pub count_present : (a : A) (xs : List A) → contains xs a ≡ true → 1 ≤ count a xs
  unfolding count contains
  count_present a [] h = ground arith
  count_present a (x ∷ xs) h = ground (arith, count_present a xs)

  pub count-remove-le : (a b : A) (xs : List A) → count b (remove a xs) ≤ count b xs
  unfolding count remove
  count-remove-le a b [] = omega arith
  count-remove-le a b (x ∷ xs) = ground (arith, count-remove-le a b xs)

  pub count-push_absent-le :
      (a b : A) (xs : List A) → count b xs ≤ 1 → count b (push_absent a xs) ≤ 1
  unfolding count push_absent
  count-push_absent-le a b xs h =
      ground (arith, e.same_iff a b, count-append b xs (a ∷ []), count_absent a xs)
