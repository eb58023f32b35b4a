-- ===== src/Api/Router/Matching.antt =====
-- Which texts match the expression of a path, and with which groups (`std::regex_match` in
-- api/router/router.cpp).
use Prim.Native.Char.{Char, code}
use datafeed_server.Prelude.{
  ◌≡◌, refl, ◌∙◌, Bool, true, false, not, ◌&&◌, ◌||◌, String, List, [], ◌∷◌, Option, none, some,
  eqb, arith,
}
use datafeed_server.Api.Router.{join, Atom, match_segment, regex_match}
use datafeed_server.Api.Router.Pattern.{atoms_from, atoms_of}

-- a text to stand for a parameter
unfoldable pub has_slash : String → Bool
has_slash String.[] = false
has_slash (String.◌∷◌ c s) = eqb (code c) 47 || has_slash s

unfoldable pub is_name : String → Bool
unfolding has_slash
is_name String.[] = false
is_name (String.◌∷◌ c s) = not (has_slash (String.◌∷◌ c s))

-- the path with names for the parameters
unfoldable pub fill : List Atom → List String → String
unfolding join
fill [] names = String.[]
fill (Atom.literal c ∷ atoms) names = String.◌∷◌ c (fill atoms names)
fill (Atom.segment ∷ atoms) [] = fill atoms []
fill (Atom.segment ∷ atoms) (name ∷ names) = join name (fill atoms names)

unfoldable pub are_names : List Atom → List String → Bool
unfolding is_name
are_names [] [] = true
are_names [] (name ∷ names) = false
are_names (Atom.literal c ∷ atoms) names = are_names atoms names
are_names (Atom.segment ∷ atoms) [] = false
are_names (Atom.segment ∷ atoms) (name ∷ names) = is_name name && are_names atoms names

-- the end, or a '/'
unfoldable pub at_slash : String → Bool
at_slash String.[] = true
at_slash (String.◌∷◌ c s) = eqb (code c) 47

unfoldable pub begins_at_slash : List Atom → Bool
begins_at_slash [] = true
begins_at_slash (Atom.literal c ∷ atoms) = eqb (code c) 47
begins_at_slash (Atom.segment ∷ atoms) = false

-- each parameter is followed by '/' or nothing
unfoldable pub is_separated : List Atom → Bool
unfolding begins_at_slash
is_separated [] = true
is_separated (Atom.literal c ∷ atoms) = is_separated atoms
is_separated (Atom.segment ∷ atoms) = begins_at_slash atoms && is_separated atoms

is_separated-atoms_from :
    (path : String)
    → (is_separated (atoms_from false path) ≡ true)
      × (is_separated (atoms_from true path) ≡ true)
      × (begins_at_slash (atoms_from true path) ≡ true)
unfolding is_separated atoms_from begins_at_slash
is_separated-atoms_from String.[] = (refl, refl, refl)
is_separated-atoms_from (String.◌∷◌ c s) = ground (arith, is_separated-atoms_from s)

pub is_separated-atoms_of : (path : String) → is_separated (atoms_of path) ≡ true
unfolding atoms_of
is_separated-atoms_of path = (is_separated-atoms_from path).0

at_slash-fill :
    (atoms : List Atom) (names : List String)
    → begins_at_slash atoms ≡ true
    → at_slash (fill atoms names) ≡ true
unfolding begins_at_slash at_slash fill
at_slash-fill [] names h = refl
at_slash-fill (Atom.literal c ∷ atoms) names h = h
at_slash-fill (Atom.segment ∷ atoms) names h = ground arith

-- What comes after a parameter matches nothing that begins within a name.
regex_match-within :
    (atoms : List Atom) (c : Char) (s : String)
    → begins_at_slash atoms ≡ true
    → eqb (code c) 47 ≡ false
    → regex_match atoms (String.◌∷◌ c s) ≡ none
unfolding regex_match begins_at_slash
regex_match-within [] c s h k = refl
regex_match-within (Atom.literal d ∷ atoms) c s h k = ground arith
regex_match-within (Atom.segment ∷ atoms) c s h k = ground arith

unfoldable pub with_group : String → Option (List String) → Option (List String)
with_group g none = none
with_group g (some gs) = some (g ∷ gs)

match_segment-stop :
    (rest : String → Option (List String)) (s : String)
    → at_slash s ≡ true
    → match_segment rest s ≡ none
unfolding match_segment at_slash
match_segment-stop rest String.[] h = refl
match_segment-stop rest (String.◌∷◌ c s) h = ground arith

-- A character before a text of which a name matches, and before one of which none does.
match_segment-longer :
    (rest : String → Option (List String)) (c : Char) (name t : String)
    (after : Option (List String))
    → eqb (code c) 47 ≡ false
    → rest t ≡ none
    → match_segment rest t ≡ with_group name after
    → match_segment rest (String.◌∷◌ c t) ≡ with_group (String.◌∷◌ c name) after
unfolding match_segment with_group
match_segment-longer rest c name t none h k m = rw (h, m, match_segment, k) refl
match_segment-longer rest c name t (some gs) h k m = rw (h, m, match_segment) refl

match_segment-single :
    (rest : String → Option (List String)) (c : Char) (t : String)
    → eqb (code c) 47 ≡ false
    → at_slash t ≡ true
    → match_segment rest (String.◌∷◌ c t) ≡ with_group (String.◌∷◌ c String.[]) (rest t)
unfolding match_segment with_group
match_segment-single rest c t h k = rw (h, match_segment-stop rest t k, match_segment) refl

match_segment-name :
    (rest : String → Option (List String)) (name s : String)
    → ((c : Char) (t : String) → eqb (code c) 47 ≡ false → rest (String.◌∷◌ c t) ≡ none)
    → is_name name ≡ true
    → at_slash s ≡ true
    → match_segment rest (join name s) ≡ with_group name (rest s)
unfolding join is_name has_slash
match_segment-name rest String.[] s within h k = ground arith
match_segment-name rest (String.◌∷◌ c String.[]) s within h k =
    match_segment-single rest c s (ground arith) k
match_segment-name rest (String.◌∷◌ c (String.◌∷◌ d name)) s within h k =
    match_segment-longer rest c (String.◌∷◌ d name) (String.◌∷◌ d (join name s)) (rest s)
      (ground arith) (within d (join name s) (ground arith))
      (match_segment-name rest (String.◌∷◌ d name) s within (ground arith) k)

-- A path with names for its parameters matches the path's expression, and the groups are the names.
pub regex_match-fill :
    (atoms : List Atom) (names : List String)
    → is_separated atoms ≡ true
    → are_names atoms names ≡ true
    → regex_match atoms (fill atoms names) ≡ some names
unfolding regex_match fill are_names is_separated with_group
regex_match-fill [] [] h k = refl
regex_match-fill [] (name ∷ names) h k = ground arith
regex_match-fill (Atom.literal c ∷ atoms) names h k =
    ground (arith, regex_match-fill atoms names h k)
regex_match-fill (Atom.segment ∷ atoms) [] h k = ground arith
regex_match-fill (Atom.segment ∷ atoms) (name ∷ names) h k =
    let here : begins_at_slash atoms ≡ true = ground arith in
    match_segment-name (regex_match atoms) name (fill atoms names)
      (λ c t. regex_match-within atoms c t here) (ground arith) (at_slash-fill atoms names here)
    ∙ rw (regex_match-fill atoms names (ground arith) (ground arith)) refl

-- Two expressions that have no text in common, as far as this comparison shows.
unfoldable pub differ : List Atom → List Atom → Bool
differ [] [] = false
differ [] (b ∷ bs) = true
differ (a ∷ atoms) [] = true
differ (Atom.literal c ∷ atoms) (Atom.literal d ∷ bs) =
    not (eqb (code d) (code c)) || differ atoms bs
differ (Atom.segment ∷ atoms) (Atom.segment ∷ bs) = differ atoms bs
differ (Atom.literal c ∷ atoms) (Atom.segment ∷ bs) = false
differ (Atom.segment ∷ atoms) (Atom.literal c ∷ bs) = false

regex_match-name : (name s : String) → is_name name ≡ true → regex_match [] (join name s) ≡ none
unfolding is_name regex_match join
regex_match-name String.[] s h = ground arith
regex_match-name (String.◌∷◌ c name) s h = refl

-- If two expressions differ, the one matches no path of the other.
pub regex_match-differ :
    (atoms bs : List Atom) (names : List String)
    → differ atoms bs ≡ true
    → is_separated atoms ≡ true
    → is_separated bs ≡ true
    → are_names bs names ≡ true
    → regex_match atoms (fill bs names) ≡ none
unfolding differ regex_match fill are_names is_separated with_group
regex_match-differ [] [] names d h k n = ground arith
regex_match-differ [] (Atom.literal c ∷ bs) names d h k n = refl
regex_match-differ [] (Atom.segment ∷ bs) [] d h k n = ground arith
regex_match-differ [] (Atom.segment ∷ bs) (name ∷ names) d h k n =
    regex_match-name name (fill bs names) (ground arith)
regex_match-differ (Atom.literal c ∷ atoms) [] names d h k n = refl
regex_match-differ (Atom.segment ∷ atoms) [] names d h k n = refl
regex_match-differ (Atom.literal c ∷ atoms) (Atom.literal e ∷ bs) names d h k n =
    ground (arith, regex_match-differ atoms bs names)
regex_match-differ (Atom.segment ∷ atoms) (Atom.segment ∷ bs) [] d h k n = ground arith
regex_match-differ (Atom.segment ∷ atoms) (Atom.segment ∷ bs) (name ∷ names) d h k n =
    match_segment-name (regex_match atoms) name (fill bs names)
      (λ c t. regex_match-within atoms c t (ground arith)) (ground arith)
      (at_slash-fill bs names (ground arith))
    ∙ rw (regex_match-differ atoms bs names d (ground arith) (ground arith) (ground arith)) refl
regex_match-differ (Atom.literal c ∷ atoms) (Atom.segment ∷ bs) names d h k n = ground arith
regex_match-differ (Atom.segment ∷ atoms) (Atom.literal c ∷ bs) names d h k n = ground arith
