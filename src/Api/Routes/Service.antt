-- ===== src/Api/Routes/Service.antt =====
-- What the server answers to a request (server/server.cpp, `build_router` and `on_read` of http_session).
use datafeed_server.Api.Http.{HttpLibrary}
use datafeed_server.Prelude.{
  ℕ, ◌≡◌, ◌≢◌, refl, ◌∙◌, true, false, String, List, [], Option, none, some, string_key, contains,
}
use datafeed_server.Api.Router.{strip_query, handle_request, find_route}
use datafeed_server.Api.Router.Pattern.{is_plain, atoms_of}
use datafeed_server.Api.Router.Matching.{fill, are_names, differ}
use datafeed_server.Api.Router.Dispatch.{
  all_plain, are_distinct, differs_from, route_at, routes_of, add_routes-routes_of,
  find_route-routes_of,
}
use datafeed_server.Api.Routes.{api_routes, HttpError, build_router, Action, on_read}

api_routes-plain : all_plain api_routes ≡ true
unfolding all_plain is_plain contains
api_routes-plain = refl

api_routes-distinct : are_distinct api_routes ≡ true
unfolding are_distinct differs_from atoms_of differ
api_routes-distinct = refl

module _ (http : HttpLibrary)
    (handlers : String → String → http.Request → List String → http.Response) where
  open http use {
    Request, Response, method_string, target, is_upgrade, status, body, allow_any_origin,
  }

  -- the answer with the routes of `build_router`; `none` if it cannot build them
  unfoldable pub serve : Request → Option (Action http handlers)
  serve req = elim (build_router http handlers) [
    | none ↦ none
    | some routes ↦ some (on_read http handlers HttpError.success req routes)
  ]

  serve-on_read :
      (req : Request)
      → serve req
        ≡ some (on_read http handlers HttpError.success req (routes_of http handlers api_routes))
  unfolding serve build_router
  serve-on_read req =
      rw (add_routes-routes_of http handlers api_routes [] api_routes-plain, serve) refl

  handle_request-path :
      (req : Request) (path : String)
      → strip_query (target req) ≡ path
      → handle_request http req (routes_of http handlers api_routes)
        ≡ find_route http req path (routes_of http handlers api_routes)
  unfolding handle_request
  handle_request-path req path h = rw h refl

  serve-found :
      (req : Request) {response : Response}
      → is_upgrade req ≡ false
      → handle_request http req (routes_of http handlers api_routes) ≡ some response
      → serve req ≡ some (Action.respond (allow_any_origin response))
  unfolding on_read
  serve-found req no_upgrade found = serve-on_read req ∙ rw (no_upgrade, found, on_read) refl

  -- A request with the method and the path of any route of `build_router`, with names for the parameters
  -- and any query behind, is answered by that route's handler with these names: no route takes the requests
  -- of another.
  pub serve-reaches :
      (req : Request) (path : String) (names : List String) (n : ℕ)
      → route_at n api_routes ≡ some (method_string req, path)
      → are_names (atoms_of path) names ≡ true
      → strip_query (target req) ≡ fill (atoms_of path) names
      → is_upgrade req ≡ false
      → serve req
        ≡ some (Action.respond (allow_any_origin (handlers (method_string req) path req names)))
  serve-reaches req path names n at k target_path no_upgrade = serve-found req no_upgrade (
      handle_request-path req (fill (atoms_of path) names) target_path
      ∙ find_route-routes_of http handlers req path names n api_routes api_routes-distinct at k)

  -- an answer to a request: that of the route with its method and its path, or, if there is none, status 404
  pub data Answered (req : Request) : Type 0 where
    by_route :
        (n : ℕ) (path : String) (names : List String)
        → route_at n api_routes ≡ some (method_string req, path)
        → are_names (atoms_of path) names ≡ true
        → strip_query (target req) ≡ fill (atoms_of path) names
        → serve req
          ≡ some (Action.respond (allow_any_origin (handlers (method_string req) path req names)))
        → Answered req
    not_found :
        ((n : ℕ) (path : String) (names : List String)
          → route_at n api_routes ≡ some (method_string req, path)
          → are_names (atoms_of path) names ≡ true
          → strip_query (target req) ≢ fill (atoms_of path) names)
        → (response : Response) → serve req ≡ some (Action.respond response)
        → status response ≡ 404
        → body response ≡ "{\"error\":\"not found\"}"
        → Answered req
