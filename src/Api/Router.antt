-- ===== src/Api/Router.antt =====
-- api/router/router.cpp, with the part of std::regex that it uses, and the routes of `build_router` of
-- server/server.cpp. A character stands for one byte.
pub mod Pattern
pub mod Matching
pub mod Dispatch
pub mod Soundness
mod Examples
use Prim.Native.Char.{Char, code}
use datafeed_server.Api.Http.{HttpLibrary}
use datafeed_server.Prelude.{
  ℕ, Bool, true, false, String, List, [], ◌∷◌, ◌++◌, Option, none, some, if◌then◌else◌, eqb, ◌==◌,
  string_key, nat_key, contains,
}

-- `s + t`
unfoldable pub join : String → String → String
join String.[] t = t
join (String.◌∷◌ c s) t = String.◌∷◌ c (join s t)

-- What the loop appends, then "$". The flag says that the loop is inside the name of a parameter, which
-- goes to the next '/' (`find('/', pos)` and `pos = end`).
unfoldable pub regex_from : Bool → String → String
unfolding join
regex_from in_name String.[] = "$"
regex_from true (String.◌∷◌ c s) = elim (eqb (code c) 47) [
  | true ↦ String.◌∷◌ c (regex_from false s)
  | false ↦ regex_from true s
]
regex_from false (String.◌∷◌ c s) = elim (eqb (code c) 58) [
  | true ↦ join "([^/]+)" (regex_from true s)
  | false ↦ elim (eqb (code c) 46) [
    | true ↦ join "\\." (regex_from false s)
    | false ↦ String.◌∷◌ c (regex_from false s)
  ]
]

unfoldable pub path_to_regex : String → String
unfolding regex_from join
path_to_regex path = join "^" (regex_from false path)

-- A regular expression of std::regex, as far as one is used: characters that stand for themselves, and
-- groups `([^/]+)`.
pub data Atom : Type 0 where
  literal : Char → Atom
  segment : Atom

-- what a character means to std::regex (ECMAScript)
pub data Meaning : Type 0 where
  escape opening finish other itself : Meaning

-- ^ * + . ? ) [ ] { } |
abbrev pub other_codes : List ℕ
other_codes = 94 ∷ 42 ∷ 43 ∷ 46 ∷ 63 ∷ 41 ∷ 91 ∷ 93 ∷ 123 ∷ 125 ∷ 124 ∷ []

unfoldable pub meaning_of : Char → Meaning
unfolding contains
meaning_of c =
    if eqb (code c) 92
    then Meaning.escape
    else if eqb (code c) 40
    then Meaning.opening
    else if eqb (code c) 36
    then Meaning.finish
    else if contains {A = ℕ} other_codes (code c)
    then Meaning.other
    else Meaning.itself

-- Where the reader of a regular expression is: between two atoms, behind a backslash, or in a group, with
-- the codes it has still to find.
pub data Place : Type 0 where
  between behind_escape : Place
  in_group : List ℕ → Place

-- [ ^ / ] + )
abbrev pub group_codes : List ℕ
group_codes = 91 ∷ 94 ∷ 47 ∷ 93 ∷ 43 ∷ 41 ∷ []

unfoldable pub with_atom : Atom → Option (List Atom) → Option (List Atom)
with_atom a none = none
with_atom a (some atoms) = some (a ∷ atoms)

-- The constructor of std::regex, behind "^". `none` stands for an expression of another form.
unfoldable pub compile_from : Place → String → Option (List Atom)
unfolding meaning_of with_atom
compile_from place String.[] = none
compile_from Place.between (String.◌∷◌ c s) = elim (meaning_of c) [
  | escape ↦ compile_from Place.behind_escape s
  | opening ↦ compile_from (Place.in_group group_codes) s
  | finish ↦ elim s [ String.[] ↦ some [] | String.◌∷◌ d t ↦ none ]
  | other ↦ none
  | itself ↦ with_atom (Atom.literal c) (compile_from Place.between s)
]
compile_from Place.behind_escape (String.◌∷◌ c s) =
    if eqb (code c) 46 then with_atom (Atom.literal c) (compile_from Place.between s) else none
compile_from (Place.in_group []) (String.◌∷◌ c s) = none
compile_from (Place.in_group (n ∷ [])) (String.◌∷◌ c s) =
    if eqb (code c) n then with_atom Atom.segment (compile_from Place.between s) else none
compile_from (Place.in_group (n ∷ m ∷ ns)) (String.◌∷◌ c s) =
    if eqb (code c) n then compile_from (Place.in_group (m ∷ ns)) s else none

unfoldable pub compile : String → Option (List Atom)
unfolding compile_from
compile String.[] = none
compile (String.◌∷◌ c s) = if eqb (code c) 94 then compile_from Place.between s else none

-- `([^/]+)` and then the rest of the expression: the longest match that lets the rest match
unfoldable pub match_segment : (String → Option (List String)) → String → Option (List String)
match_segment rest String.[] = none
match_segment rest (String.◌∷◌ c s) = elim (eqb (code c) 47) [
  | true ↦ none
  | false ↦ elim (match_segment rest s) [
    | some groups ↦ elim groups [ [] ↦ none | g ∷ gs ↦ some (String.◌∷◌ c g ∷ gs) ]
    | none ↦ elim (rest s) [ none ↦ none | some gs ↦ some (String.◌∷◌ c String.[] ∷ gs) ]
  ]
]

-- `std::regex_match`: the groups of the match, if the whole text matches
unfoldable pub regex_match : List Atom → String → Option (List String)
unfolding match_segment
regex_match [] String.[] = some []
regex_match [] (String.◌∷◌ c s) = none
regex_match (Atom.literal d ∷ atoms) String.[] = none
regex_match (Atom.literal d ∷ atoms) (String.◌∷◌ c s) = elim (eqb (code c) (code d)) [
  | true ↦ regex_match atoms s
  | false ↦ none
]
regex_match (Atom.segment ∷ atoms) s = match_segment (regex_match atoms) s

-- `path.substr(0, path.find('?'))`, or the path as it is
unfoldable pub strip_query : String → String
strip_query String.[] = String.[]
strip_query (String.◌∷◌ c s) = elim (eqb (code c) 63) [
  | true ↦ String.[]
  | false ↦ String.◌∷◌ c (strip_query s)
]

module _ (http : HttpLibrary) where
  open http use {Request, Response, method_string, target}

  pub record Route : Type 0 where
    pub method : String
    pub pattern : String
    pub regex : List Atom
    pub handler : Request → List String → Response

  unfoldable pub add_route :
      String → String → (Request → List String → Response) → List Route → Option (List Route)
  add_route method path handler routes = elim (compile (path_to_regex path)) [
    | none ↦ none
    | some regex ↦ some (
        routes
        ++ (record { method = method; pattern = path; regex = regex; handler = handler } ∷ []))
  ]

  -- the loop over the routes
  unfoldable pub find_route : Request → String → List Route → Option Response
  find_route req path [] = none
  find_route req path (route ∷ routes) = elim (route.method == method_string req) [
    | false ↦ find_route req path routes
    | true ↦ elim (regex_match route.regex path) [
      | some groups ↦ some (route.handler req groups)
      | none ↦ find_route req path routes
    ]
  ]

  unfoldable pub handle_request : Request → List Route → Option Response
  handle_request req routes = find_route req (strip_query (target req)) routes

  -- the handlers by method and path
  unfoldable pub add_routes :
      (String → String → Request → List String → Response)
      → List (String × String)
      → List Route
      → Option (List Route)
  add_routes handlers [] routes = some routes
  add_routes handlers ((method, path) ∷ table) routes =
      elim (add_route method path (handlers method path) routes) [
        | none ↦ none
        | some added ↦ add_routes handlers table added
      ]
