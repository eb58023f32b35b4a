-- ===== src/Api/Router/Soundness.antt =====
-- A text that matches the expression of a path (`std::regex_match` in api/router/router.cpp) is the path with the
-- groups for its parameters; and a route that is found has the request's method.
use mathlib.Core.Option.{some-injective}
use text.Mathlib.TextEquality.{Char-path}
use Prim.Native.Char.{Char, code}
use datafeed_server.Prelude.{
  ℕ, suc, ◌≡◌, refl, ◌∙◌, ap, subst, sym, inl, inr, true, false, String, List, [], ◌∷◌, Option,
  none, some, eqb, eqb_iff, arith, ℕ, ◌==◌, string_key, Bool-cases, Option-cases,
}
use datafeed_server.Api.Http.{HttpLibrary}
use datafeed_server.Api.Router.{join, Atom, match_segment, regex_match, find_route}
use datafeed_server.Api.Router.Pattern.{atoms_of}
use datafeed_server.Api.Router.Dispatch.{
  route_at, route, routes_of, find_route-other, find_route-method, find_route-hit,
}
use datafeed_server.Api.Router.Matching.{has_slash, is_name, fill, are_names}

is_name-has_slash : (g : String) → is_name g ≡ true → has_slash g ≡ false
unfolding is_name
is_name-has_slash String.[] h = cc
is_name-has_slash (String.◌∷◌ c g) h = ground arith

-- A match of a parameter and the rest is a name and a match of the rest.
pub record Segment (rest : String → Option (List String)) (s : String) (gs : List String)
    : Type 0 where
  pub name : String
  pub others : List String
  pub text : String
  pub groups : gs ≡ name ∷ others
  pub whole : s ≡ join name text
  pub named : is_name name ≡ true
  pub after : rest text ≡ some others

longer :
    (rest : String → Option (List String)) (c : Char) (s : String) (g : String) (gs : List String)
    → eqb (code c) 47 ≡ false
    → Segment rest s (g ∷ gs)
    → Segment rest (String.◌∷◌ c s) (String.◌∷◌ c g ∷ gs)
unfolding join is_name has_slash
longer rest c s g gs h m = record {
  name = String.◌∷◌ c m.name;
  others = m.others;
  text = m.text;
  groups = grind (arith, m.groups);
  whole = ap (λ t. String.◌∷◌ c t) m.whole;
  named = ground (arith, h, is_name-has_slash m.name m.named);
  after = m.after;
}

more_groups :
    (rest : String → Option (List String)) (c : Char) (s : String) (found gs : List String)
    → eqb (code c) 47 ≡ false
    → match_segment rest s ≡ some found
    → match_segment rest (String.◌∷◌ c s) ≡ some gs
    → Segment rest s found
    → Segment rest (String.◌∷◌ c s) gs
unfolding match_segment
more_groups rest c s [] gs e r q m = absurd (cc (rw (e, r, match_segment) at q))
more_groups rest c s (g ∷ found) gs e r q m =
    subst (Segment rest (String.◌∷◌ c s))
      (some-injective (String.◌∷◌ c g ∷ found) gs (rw (e, r, match_segment) at q))
      (longer rest c s g found e m)

match_segment-Segment :
    (rest : String → Option (List String)) (s : String) (gs : List String)
    → match_segment rest s ≡ some gs
    → Segment rest s gs
unfolding match_segment join is_name has_slash
match_segment-Segment rest String.[] gs q = absurd (cc q)
match_segment-Segment rest (String.◌∷◌ c s) gs q = elim (Bool-cases (eqb (code c) 47)) [
  | inl e ↦ absurd (cc (rw (e, match_segment) at q))
  | inr e ↦ elim (Option-cases (match_segment rest s)) [
    | inl n ↦ elim (Option-cases (rest s)) [
      | inl r ↦ absurd (cc (rw (e, n, r, match_segment) at q))
      | inr (others, r) ↦ record {
        name = String.◌∷◌ c String.[];
        others = others;
        text = s;
        groups = sym (
            some-injective (String.◌∷◌ c String.[] ∷ others) gs (rw (e, n, r, match_segment) at q));
        whole = refl;
        named = ground (arith, e);
        after = r;
      }
    ]
    | inr (found, r) ↦ more_groups rest c s found gs e r q (match_segment-Segment rest s found r)
  ]
]

pub regex_match-fills :
    (atoms : List Atom) (s : String) (gs : List String)
    → regex_match atoms s ≡ some gs
    → (s ≡ fill atoms gs) × (are_names atoms gs ≡ true)
unfolding regex_match fill are_names
regex_match-fills [] String.[] gs q =
    subst (λ gs'. (String.[] ≡ fill [] gs') × (are_names [] gs' ≡ true)) (some-injective [] gs q)
      (refl, refl)
regex_match-fills [] (String.◌∷◌ c s) gs q = absurd (cc q)
regex_match-fills (Atom.literal d ∷ atoms) String.[] gs q = absurd (cc q)
regex_match-fills (Atom.literal d ∷ atoms) (String.◌∷◌ c s) gs q =
    elim (Bool-cases (eqb (code c) (code d))) [
      | inl e ↦
          let (same, named) = regex_match-fills atoms s gs (rw (e, regex_match) at q) in
          (λ i. String.◌∷◌ (Char-path c d ((eqb_iff (code c) (code d)).0 e) i) (same i), named)
      | inr e ↦ absurd (cc (rw (e, regex_match) at q))
    ]
regex_match-fills (Atom.segment ∷ atoms) s gs q =
    let m = match_segment-Segment (regex_match atoms) s gs q in
    let (same, named) = regex_match-fills atoms m.text m.others m.after in
    subst
      (λ gs'. (s ≡ fill (Atom.segment ∷ atoms) gs') × (are_names (Atom.segment ∷ atoms) gs' ≡ true))
      (sym m.groups) (m.whole ∙ ap (join m.name) same, ground (arith, m.named, named))

module _ (http : HttpLibrary)
    (handlers : String → String → http.Request → List String → http.Response) where
  open http use {Request, Response, method_string}

  -- The response is that of a route with the request's method and path.
  pub record Found (req : Request) (text : String) (response : Response)
      (table : List (String × String)) : Type 0 where
    pub position : ℕ
    pub path : String
    pub names : List String
    pub listed : route_at position table ≡ some (method_string req, path)
    pub named : are_names (atoms_of path) names ≡ true
    pub whole : text ≡ fill (atoms_of path) names
    pub answer : response ≡ handlers (method_string req) path req names

  later :
      (req : Request) (text : String) (response : Response) (m p : String)
      (table : List (String × String))
      → Found req text response table
      → Found req text response ((m, p) ∷ table)
  unfolding route_at
  later req text response m p table f = record {
    position = suc f.position;
    path = f.path;
    names = f.names;
    listed = f.listed;
    named = f.named;
    whole = f.whole;
    answer = f.answer;
  }

  first :
      (req : Request) (text : String) (response : Response) (m p : String)
      (table : List (String × String)) (names : List String)
      → m ≡ method_string req
      → regex_match (atoms_of p) text ≡ some names
      → response ≡ handlers m p req names
      → Found req text response ((m, p) ∷ table)
  unfolding route_at
  first req text response m p table names same r answer =
      let (whole, named) = regex_match-fills (atoms_of p) text names r in
      record {
        position = 0;
        path = p;
        names = names;
        listed = ap (λ m'. some (m', p)) same;
        named = named;
        whole = whole;
        answer = answer ∙ ap (λ m'. handlers m' p req names) same;
      }

  pub find_route-Found :
      (req : Request) (text : String) (response : Response) (table : List (String × String))
      → find_route http req text (routes_of http handlers table) ≡ some response
      → Found req text response table
  unfolding routes_of
  find_route-Found req text response [] q =
      let missed : find_route http req text [] ≡ none = (unfold find_route in refl) in
      absurd (cc (sym missed ∙ q))
  find_route-Found req text response ((m, p) ∷ table) q =
      let r = route http handlers m p in
      let rest = routes_of http handlers table in
      elim (Bool-cases (m == method_string req)) [
        | inl e ↦ elim (Option-cases (regex_match (atoms_of p) text)) [
          | inl n ↦ later req text response m p table (
              find_route-Found req text response table
                (sym (find_route-other http handlers req text r rest e n) ∙ q))
          | inr (names, k) ↦
              first req text response m p table names
                ((string_key.same_iff m (method_string req)).0 e) k
                (some-injective response (handlers m p req names)
                  (sym q ∙ find_route-hit http handlers req text r rest names e k))
        ]
        | inr e ↦ later req text response m p table (
            find_route-Found req text response table
              (sym (find_route-method http handlers req text r rest e) ∙ q))
      ]
