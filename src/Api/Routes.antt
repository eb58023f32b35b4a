-- ===== src/Api/Routes.antt =====
-- server/server.cpp: the routes of `build_router`, and `on_read` of http_session, which answers by them.
pub mod Service
mod Examples
use datafeed_server.Api.Http.{HttpLibrary}
use datafeed_server.Prelude.{
  ℕ, Bool, true, false, String, List, [], ◌∷◌, Option, none, some, ◌≡◌, refl, ◌∙◌,
}
use datafeed_server.Api.Router.{Route, add_routes, handle_request}

-- the method and the path of each route, in the order in which `build_router` adds them
abbrev pub api_routes : List (String × String)
api_routes =
    ("GET", "/api/v1/feed/status")
    ∷ ("GET", "/api/v1/clients")
    ∷ ("GET", "/api/v1/clients/:id")
    ∷ ("POST", "/api/v1/clients")
    ∷ ("DELETE", "/api/v1/clients/:id")
    ∷ ("GET", "/api/v1/dashboard")
    ∷ ("GET", "/api/v1/metrics/live")
    ∷ ("GET", "/api/v1/metrics/history")
    ∷ ("GET", "/api/v1/performance/live")
    ∷ ("GET", "/api/v1/performance/history")
    ∷ ("GET", "/api/v1/throughput/live")
    ∷ ("GET", "/api/v1/throughput/history")
    ∷ ("GET", "/api/v1/feed/live")
    ∷ ("GET", "/api/v1/feed/history")
    ∷ ("GET", "/api/v1/exchanges")
    ∷ ("GET", "/api/v1/exchange/:exchange")
    ∷ ("GET", "/api/v1/exchange/:exchange/history")
    ∷ ("GET", "/api/v1/queues/live")
    ∷ ("GET", "/api/v1/queues/history")
    ∷ ("GET", "/api/v1/network/live")
    ∷ ("GET", "/api/v1/network/history")
    ∷ ("GET", "/api/v1/database/live")
    ∷ ("GET", "/api/v1/database/history")
    ∷ ("GET", "/api/v1/system/live")
    ∷ ("GET", "/api/v1/system/history")
    ∷ ("GET", "/api/v1/sessions/live")
    ∷ ("GET", "/api/v1/sessions/history")
    ∷ ("GET", "/api/v1/analytics")
    ∷ ("GET", "/api/v1/timeline")
    ∷ ("GET", "/api/v1/dependencies")
    ∷ ("GET", "/api/v1/topology")
    ∷ ("GET", "/api/v1/alerts")
    ∷ ("POST", "/api/v1/alerts/:id/ack")
    ∷ ("GET", "/api/v1/alerts/history")
    ∷ ("GET", "/api/v1/audit")
    ∷ ("GET", "/api/v1/config")
    ∷ ("PUT", "/api/v1/config")
    ∷ ("GET", "/api/v1/thresholds")
    ∷ ("PUT", "/api/v1/thresholds")
    ∷ ("GET", "/api/v1/search")
    ∷ ("GET", "/health")
    ∷ []

-- how the read of a request ended
pub data HttpError : Type 0 where
  success end_of_stream failure : HttpError

module _ (http : HttpLibrary) where
  open http use {Request, Response, make_response, version_string}

  unfoldable pub make_not_found : Request → Response
  make_not_found req =
      make_response 404 req (("Server", version_string) ∷ ("Content-Type", "application/json") ∷ [])
        "{\"error\":\"not found\"}"

-- The handlers, which are functions in the body of `build_router`, are a parameter, by method and path.
module _ (http : HttpLibrary)
    (handlers : String → String → http.Request → List String → http.Response) where
  open http use {Request, Response, is_upgrade, allow_any_origin}

  unfoldable pub build_router : Option (List (Route http))
  build_router = add_routes http handlers api_routes []

  -- What is done with a connection: its sending side is shut down, nothing, it goes over to a
  -- websocket_session, or a response is written and then the sending side is shut down.
  pub data Action : Type 0 where
    shut_down nothing upgrade : Action
    respond : Response → Action

  unfoldable pub on_read : HttpError → Request → List (Route http) → Action
  on_read HttpError.end_of_stream req routes = Action.shut_down
  on_read HttpError.failure req routes = Action.nothing
  on_read HttpError.success req routes = elim (is_upgrade req) [
    | true ↦ Action.upgrade
    | false ↦ elim (handle_request http req routes) [
      | some response ↦ Action.respond (allow_any_origin response)
      | none ↦ Action.respond (allow_any_origin (make_not_found http req))
    ]
  ]
