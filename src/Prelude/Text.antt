-- ===== src/Prelude/Text.antt =====
-- Searching in texts: std::string::find on a literal, and substr. A character stands for one byte of the
-- std::string, so its code is below 256.
use Prim.Native.Char.{code}
use Prim.Native.Nat.{ℕ, zero, suc}
use mathlib.Core.Option.{Option, none, some}
use Prim.Native.String.{String}
use mathlib.Core.Path.{◌≡◌, refl}
use mathlib.Core.Bool.{Bool, true, false, ◌&&◌, ◌||◌}
use native.Mathlib.Omega.{arith}
use datafeed_server.Prelude.Tests.{eqb, if◌then◌else◌}

-- Does the first text begin with the second?
unfoldable pub begins : String → String → Bool
begins s String.[] = true
begins String.[] (String.◌∷◌ d t) = false
begins (String.◌∷◌ c s) (String.◌∷◌ d t) = eqb (code c) (code d) && begins s t

-- `s.find(t) != std::string::npos`
unfoldable pub found : String → String → Bool
unfolding begins
found String.[] t = begins String.[] t
found (String.◌∷◌ c s) t = begins (String.◌∷◌ c s) t || found s t

-- What begins with a text begins with each beginning of that text, and a text inside a text that
-- is found is found.
pub begins_trans : (s t u : String) → begins s t ≡ true → begins t u ≡ true → begins s u ≡ true
unfolding begins
begins_trans s t String.[] h k = refl
begins_trans s String.[] (String.◌∷◌ d u) h k = ground arith
begins_trans String.[] (String.◌∷◌ c t) (String.◌∷◌ d u) h k = ground arith
begins_trans (String.◌∷◌ a s) (String.◌∷◌ c t) (String.◌∷◌ d u) h k =
    ground (arith, begins_trans s t u)

pub begins-found : (s t : String) → begins s t ≡ true → found s t ≡ true
unfolding found
begins-found String.[] t h = h
begins-found (String.◌∷◌ c s) t h = ground arith

found-begins : (s t u : String) → begins s t ≡ true → found t u ≡ true → found s u ≡ true
unfolding found begins
found-begins s String.[] String.[] h k = begins-found s String.[] refl
found-begins s String.[] (String.◌∷◌ d u) h k = ground arith
found-begins String.[] (String.◌∷◌ c t) u h k = ground arith
found-begins (String.◌∷◌ a s) (String.◌∷◌ c t) u h k =
    ground (arith, begins_trans (String.◌∷◌ a s) (String.◌∷◌ c t) u, found-begins s t u)

pub found_trans : (s t u : String) → found s t ≡ true → found t u ≡ true → found s u ≡ true
unfolding found
found_trans String.[] t u h k = found-begins String.[] t u h k
found_trans (String.◌∷◌ c s) t u h k =
    ground (arith, found-begins (String.◌∷◌ c s) t u, found_trans s t u)

-- The text from the first place on where the second text begins: `s.substr(s.find(t))`.
unfoldable pub suffix_at : String → String → Option String
unfolding begins
suffix_at String.[] t = if begins String.[] t then some String.[] else none
suffix_at (String.◌∷◌ c s) t =
    if begins (String.◌∷◌ c s) t then some (String.◌∷◌ c s) else suffix_at s t

-- The first `n` characters, if there are as many: `s.substr(0, n)` under the test `s.size() >= n`.
unfoldable pub first : ℕ → String → Option String
first zero s = some String.[]
first (suc n) String.[] = none
first (suc n) (String.◌∷◌ c s) = elim (first n s) [ none ↦ none | some t ↦ some (String.◌∷◌ c t) ]

pub suffix_at-begins : (s t u : String) → suffix_at s t ≡ some u → begins u t ≡ true
unfolding suffix_at
suffix_at-begins String.[] t u h = ground arith
suffix_at-begins (String.◌∷◌ c s) t u h = ground (arith, suffix_at-begins s t u)
