-- ===== src/Api/Routes/Examples.antt =====
-- Two requests, and what http_session of server/server.cpp answers to them.
use datafeed_server.Prelude.{ℕ, ◌≡◌, refl, false, String, List, [], ◌∷◌, some, string_key}
use datafeed_server.Api.Http.{HttpLibrary}
use datafeed_server.Api.Router.{strip_query}
use datafeed_server.Api.Router.Pattern.{atoms_of}
use datafeed_server.Api.Router.Matching.{fill, are_names, is_name, has_slash}
use datafeed_server.Api.Router.Dispatch.{route_at}
use datafeed_server.Api.Routes.{Action}
use datafeed_server.Api.Routes.Service.{serve, serve-reaches}

-- A request is a method and a target; a response, a status and a list of texts, the last of which is the body.
abbrev http_texts : HttpLibrary
http_texts = record {
  Request = String × String;
  Response = ℕ × String × List String;
  method_string = λ r. r.0;
  target = λ r. r.1;
  is_upgrade = λ r. false;
  make_response = λ n req fields text. (n, text, []);
  status = λ r. r.0;
  body = λ r. r.1;
  allow_any_origin = λ r. (r.0, r.1, "*" ∷ r.2);
  status-make_response = λ n req fields text. refl;
  body-make_response = λ n req fields text. refl;
  status-allow_any_origin = λ r. refl;
  body-allow_any_origin = λ r. refl;
  version_string = "Boost.Beast";
}

abbrev echo : String → String → String × String → List String → ℕ × String × List String
echo method path req names = (200, method, path ∷ names)

abbrev history_request : String × String
history_request = ("GET", "/api/v1/exchange/binance/history?limit=5")

serve-reaches_example :
    serve http_texts echo history_request
    ≡ some
        (Action.respond (200, "GET", "*" ∷ "/api/v1/exchange/:exchange/history" ∷ "binance" ∷ []))
unfolding route_at atoms_of are_names is_name has_slash strip_query fill
serve-reaches_example =
    serve-reaches http_texts echo history_request "/api/v1/exchange/:exchange/history"
      ("binance" ∷ []) 16 refl refl refl refl
