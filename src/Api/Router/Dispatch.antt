-- ===== src/Api/Router/Dispatch.antt =====
-- Which handler a request reaches (api/router/router.cpp), and that the routes of `build_router`
-- (server/server.cpp) do not take requests from each other.
use Prim.Native.Char.{Char, code}
use mathlib.Core.List.{append_assoc, append-nil}
use datafeed_server.Api.Http.{HttpLibrary}
use datafeed_server.Prelude.{
  ℕ, zero, suc, ◌≡◌, refl, ◌∙◌, ap, sym, inl, inr, Bool, true, false, not, ◌&&◌, ◌||◌, String, List,
  [], ◌∷◌, ◌++◌, Option, none, some, eqb, arith, ◌==◌, string_key, key_refl, Bool-cases,
}
use datafeed_server.Api.Router.{
  join, regex_match, strip_query, Route, add_route, find_route, add_routes,
}
use datafeed_server.Api.Router.Pattern.{is_plain, atoms_of, compile-path_to_regex}
use datafeed_server.Api.Router.Matching.{
  fill, are_names, is_separated-atoms_of, differ, regex_match-fill, regex_match-differ,
}

unfoldable pub has_question : String → Bool
has_question String.[] = false
has_question (String.◌∷◌ c s) = eqb (code c) 63 || has_question s

-- What comes from the first '?' on does not count.
pub strip_query-join :
    (path : String) (c : Char) (query : String)
    → has_question path ≡ false
    → eqb (code c) 63 ≡ true
    → strip_query (join path (String.◌∷◌ c query)) ≡ path
unfolding strip_query join has_question
strip_query-join String.[] c query h k = ground arith
strip_query-join (String.◌∷◌ d path) c query h k = ground (arith, strip_query-join path c query)

unfoldable pub all_plain : List (String × String) → Bool
all_plain [] = true
all_plain ((method, path) ∷ table) = is_plain path && all_plain table

-- Does the first path's expression match no path of the later routes with its method?
unfoldable pub differs_from : String → String → List (String × String) → Bool
differs_from method path [] = true
differs_from method path ((method', path') ∷ table) =
    (not (method == method') || differ (atoms_of path) (atoms_of path'))
    && differs_from method path table

unfoldable pub are_distinct : List (String × String) → Bool
unfolding differs_from
are_distinct [] = true
are_distinct ((method, path) ∷ table) = differs_from method path table && are_distinct table

-- the n-th route
unfoldable pub route_at : ℕ → List (String × String) → Option (String × String)
route_at n [] = none
route_at zero (route ∷ table) = some route
route_at (suc n) (route ∷ table) = route_at n table

route_at-zero :
    (m p m' p' : String) (table : List (String × String))
    → route_at 0 ((m, p) ∷ table) ≡ some (m', p')
    → (m ≡ m') × (p ≡ p')
unfolding route_at
route_at-zero m p m' p' table h = ground arith

differs_from-at :
    (m p m' p' : String) (n : ℕ) (table : List (String × String))
    → differs_from m p table ≡ true
    → route_at n table ≡ some (m', p')
    → (m == m') ≡ true
    → differ (atoms_of p) (atoms_of p') ≡ true
unfolding differs_from route_at
differs_from-at m p m' p' n [] d at e = ground arith
differs_from-at m p m' p' zero ((q, r) ∷ table) d at e = ground arith
differs_from-at m p m' p' (suc n) ((q, r) ∷ table) d at e =
    differs_from-at m p m' p' n table (ground arith) at e

module _ (http : HttpLibrary)
    (handlers : String → String → http.Request → List String → http.Response) where
  open http use {Request, method_string}

  abbrev pub route : String → String → Route http
  route method path = record {
    method = method;
    pattern = path;
    regex = atoms_of path;
    handler = handlers method path;
  }

  unfoldable pub routes_of : List (String × String) → List (Route http)
  routes_of [] = []
  routes_of ((method, path) ∷ table) = route method path ∷ routes_of table

  add_route-plain :
      (method path : String) (routes : List (Route http))
      → is_plain path ≡ true
      → add_route http method path (handlers method path) routes
        ≡ some (routes ++ (route method path ∷ []))
  unfolding add_route
  add_route-plain method path routes h = rw (compile-path_to_regex path h, add_route) refl

  pub add_routes-routes_of :
      (table : List (String × String)) (before : List (Route http))
      → all_plain table ≡ true
      → add_routes http handlers table before ≡ some (before ++ routes_of table)
  unfolding add_routes routes_of
  add_routes-routes_of [] before h = ap some (sym (append-nil before))
  add_routes-routes_of ((method, path) ∷ table) before h =
      rw (add_route-plain method path before (unfold all_plain in ground arith), add_routes)
        (add_routes-routes_of table (before ++ (route method path ∷ []))
            (unfold all_plain in ground arith)
          ∙ ap some (append_assoc before (route method path ∷ []) (routes_of table)))

  pub find_route-other :
      (req : Request) (path : String) (r : Route http) (routes : List (Route http))
      → (r.method == method_string req) ≡ true
      → regex_match r.regex path ≡ none
      → find_route http req path (r ∷ routes) ≡ find_route http req path routes
  unfolding find_route
  find_route-other req path r routes h k = rw (h, k, find_route) refl

  pub find_route-method :
      (req : Request) (path : String) (r : Route http) (routes : List (Route http))
      → (r.method == method_string req) ≡ false
      → find_route http req path (r ∷ routes) ≡ find_route http req path routes
  unfolding find_route
  find_route-method req path r routes h = rw (h, find_route) refl

  pub find_route-hit :
      (req : Request) (path : String) (r : Route http) (routes : List (Route http))
      (groups : List String)
      → (r.method == method_string req) ≡ true
      → regex_match r.regex path ≡ some groups
      → find_route http req path (r ∷ routes) ≡ some (r.handler req groups)
  unfolding find_route
  find_route-hit req path r routes groups h k = rw (h, k, find_route) refl

  pub find_route-routes_of :
      (req : Request) (path : String) (names : List String) (n : ℕ) (table : List (String × String))
      → are_distinct table ≡ true
      → route_at n table ≡ some (method_string req, path)
      → are_names (atoms_of path) names ≡ true
      → find_route http req (fill (atoms_of path) names) (routes_of table)
        ≡ some (handlers (method_string req) path req names)
  unfolding routes_of
  find_route-routes_of req path names n [] d at k = unfold route_at in ground arith
  find_route-routes_of req path names zero ((m, p) ∷ table) d at k =
      let (same_method, same_path) = route_at-zero m p (method_string req) path table at in
      find_route-hit req (fill (atoms_of path) names) (route m p) (routes_of table) names
        (rw same_method (key_refl (method_string req)))
        (rw same_path (regex_match-fill (atoms_of path) names (is_separated-atoms_of path) k))
      ∙ rw (same_method, same_path) refl
  find_route-routes_of req path names (suc n) ((m, p) ∷ table) d at k =
      let rest : find_route http req (fill (atoms_of path) names) (routes_of table)
          ≡ some (handlers (method_string req) path req names) =
        find_route-routes_of req path names n table (unfold are_distinct in ground arith)
          (unfold route_at in at) k in
      elim (Bool-cases (m == method_string req)) [
        | inl e ↦
            find_route-other req (fill (atoms_of path) names) (route m p) (routes_of table) e (
              regex_match-differ (atoms_of p) (atoms_of path) names
                (differs_from-at m p (method_string req) path n table
                  (unfold are_distinct in ground arith) (unfold route_at in at) e)
                (is_separated-atoms_of p) (is_separated-atoms_of path) k)
            ∙ rest
        | inr e ↦
            find_route-method req (fill (atoms_of path) names) (route m p) (routes_of table) e
            ∙ rest
      ]
