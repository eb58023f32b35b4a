-- ===== src/Api/Http.antt =====
-- The HTTP of Boost.Beast, which api/router/router.cpp and server/server.cpp stand on.
use datafeed_server.Prelude.{ℕ, Bool, String, List, ◌≡◌}

pub record HttpLibrary : Type 1 where
  pub Request : Type 0
  pub Response : Type 0
  -- `method_string` and `target` of a request
  pub method_string : Request → String
  pub target : Request → String
  -- `websocket::is_upgrade`
  pub is_upgrade : Request → Bool
  -- a response with a status, for the version of a request, with fields and a body, and its length prepared
  pub make_response : ℕ → Request → List (String × String) → String → Response
  pub status : Response → ℕ
  pub body : Response → String
  -- the response with "Access-Control-Allow-Origin" set to "*"
  pub allow_any_origin : Response → Response
  pub status-make_response :
      (n : ℕ) (req : Request) (fields : List (String × String)) (text : String)
      → status (make_response n req fields text) ≡ n
  pub body-make_response :
      (n : ℕ) (req : Request) (fields : List (String × String)) (text : String)
      → body (make_response n req fields text) ≡ text
  pub status-allow_any_origin : (r : Response) → status (allow_any_origin r) ≡ status r
  pub body-allow_any_origin : (r : Response) → body (allow_any_origin r) ≡ body r
  -- BOOST_BEAST_VERSION_STRING
  pub version_string : String
