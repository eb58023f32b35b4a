-- ===== src/Api/Router/Pattern.antt =====
-- What the regular expression of a path means, and which texts it matches (api/router/router.cpp).
use Prim.Native.Char.{Char, code}
use text.Mathlib.TextEquality.{Char-path}
use datafeed_server.Prelude.{
  eqb_iff, inl, inr, ℕ, ◌≡◌, refl, ap, sym, Bool, true, false, not, ◌&&◌, String, List, [], ◌∷◌,
  some, eqb, arith, contains, nat_key, Bool-cases,
}
use datafeed_server.Api.Router.{
  join, regex_from, path_to_regex, Atom, Meaning, meaning_of, Place, with_atom, compile_from,
  compile,
}

-- A path without the characters that std::regex reads in another way, but for '.', which is escaped.
unfoldable pub is_plain : String → Bool
unfolding contains
is_plain String.[] = true
is_plain (String.◌∷◌ c s) =
    not (
      contains {A = ℕ} (92 ∷ 40 ∷ 36 ∷ 94 ∷ 42 ∷ 43 ∷ 63 ∷ 41 ∷ 91 ∷ 93 ∷ 123 ∷ 125 ∷ 124 ∷ [])
        (code c))
    && is_plain s

-- The meaning of a path: each parameter, ':' and what follows up to a '/', stands for a nonempty text
-- without a '/', and each other character for itself.
unfoldable pub atoms_from : Bool → String → List Atom
atoms_from in_name String.[] = []
atoms_from true (String.◌∷◌ c s) = elim (eqb (code c) 47) [
  | true ↦ Atom.literal c ∷ atoms_from false s
  | false ↦ atoms_from true s
]
atoms_from false (String.◌∷◌ c s) = elim (eqb (code c) 58) [
  | true ↦ Atom.segment ∷ atoms_from true s
  | false ↦ Atom.literal c ∷ atoms_from false s
]

unfoldable pub atoms_of : String → List Atom
unfolding atoms_from
atoms_of path = atoms_from false path

meaning_of-plain :
    (c : Char) (s : String)
    → is_plain (String.◌∷◌ c s) ≡ true
    → eqb (code c) 46 ≡ false
    → meaning_of c ≡ Meaning.itself
unfolding meaning_of contains is_plain
meaning_of-plain c s h d = ground arith

meaning_of-slash : (c : Char) → eqb (code c) 47 ≡ true → meaning_of c ≡ Meaning.itself
unfolding meaning_of contains
meaning_of-slash c h = ground arith

is_plain-tail : (c : Char) (s : String) → is_plain (String.◌∷◌ c s) ≡ true → is_plain s ≡ true
unfolding is_plain
is_plain-tail c s h = ground arith

compile_from-itself :
    (c : Char) (s : String)
    → meaning_of c ≡ Meaning.itself
    → compile_from Place.between (String.◌∷◌ c s)
      ≡ with_atom (Atom.literal c) (compile_from Place.between s)
unfolding compile_from
compile_from-itself c s h = rw (h, compile_from) refl

compile_from-group :
    (s : String)
    → compile_from Place.between (join "([^/]+)" s)
      ≡ with_atom Atom.segment (compile_from Place.between s)
unfolding compile_from meaning_of contains join
compile_from-group s = refl

abbrev dot : Char
dot = Char.char 46 tt

compile_from-escape :
    (s : String)
    → compile_from Place.between (join "\\." s)
      ≡ with_atom (Atom.literal dot) (compile_from Place.between s)
unfolding compile_from meaning_of contains join
compile_from-escape s = refl

compile_from-regex_from :
    (in_name : Bool) (s : String)
    → is_plain s ≡ true
    → compile_from Place.between (regex_from in_name s) ≡ some (atoms_from in_name s)
unfolding regex_from atoms_from with_atom
compile_from-regex_from in_name String.[] h = unfold compile_from meaning_of contains in refl
compile_from-regex_from true (String.◌∷◌ c s) h =
    let rest : (b : Bool) → compile_from Place.between (regex_from b s) ≡ some (atoms_from b s) =
      λ b. compile_from-regex_from b s (is_plain-tail c s h) in
    elim (Bool-cases (eqb (code c) 47)) [
      | inl e ↦
          rw
            (
              e,
              regex_from,
              atoms_from,
              compile_from-itself c (regex_from false s) (meaning_of-slash c e),
              rest false,
            )
            refl
      | inr e ↦ rw (e, regex_from, atoms_from) (rest true)
    ]
compile_from-regex_from false (String.◌∷◌ c s) h =
    let rest : (b : Bool) → compile_from Place.between (regex_from b s) ≡ some (atoms_from b s) =
      λ b. compile_from-regex_from b s (is_plain-tail c s h) in
    elim (Bool-cases (eqb (code c) 58)) [
      | inl e ↦
          rw (e, regex_from, atoms_from, compile_from-group (regex_from true s), rest true) refl
      | inr e ↦ elim (Bool-cases (eqb (code c) 46)) [
        | inl d ↦
            rw (e, regex_from, atoms_from, d, compile_from-escape (regex_from false s), rest false)
              (ap (λ a. some (Atom.literal a ∷ atoms_from false s))
                (Char-path dot c (sym ((eqb_iff (code c) 46).0 d))))
        | inr d ↦
            rw
              (
                e,
                regex_from,
                atoms_from,
                d,
                compile_from-itself c (regex_from false s) (meaning_of-plain c s h d),
                rest false,
              )
              refl
      ]
    ]

-- The text that a path without special characters is turned into is a regular expression, and it means
-- what the path means: a nonempty text without '/' for each parameter, and each other character itself,
-- the dot included.
pub compile-path_to_regex :
    (path : String) → is_plain path ≡ true → compile (path_to_regex path) ≡ some (atoms_of path)
unfolding compile path_to_regex atoms_of join
compile-path_to_regex path h = compile_from-regex_from false path h
