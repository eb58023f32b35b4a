-- ===== src/Api/Router/Examples.antt =====
-- A path with a parameter, and the theorems of api/router/router.cpp at it.
use datafeed_server.Prelude.{◌≡◌, refl, String, [], ◌∷◌, some, contains}
use datafeed_server.Api.Router.{path_to_regex, regex_from, compile, regex_match, join}
use datafeed_server.Api.Router.Pattern.{is_plain, atoms_of, compile-path_to_regex}

abbrev history_path : String
history_path = "/exchange/:exchange/history.json"

history_regex : path_to_regex history_path ≡ "^/exchange/([^/]+)/history\\.json$"
unfolding path_to_regex regex_from join
history_regex = refl

history_match :
    regex_match (atoms_of history_path) "/exchange/binance/history.json" ≡ some ("binance" ∷ [])
unfolding regex_match atoms_of
history_match = refl

compile-path_to_regex_example : compile (path_to_regex history_path) ≡ some (atoms_of history_path)
unfolding is_plain contains
compile-path_to_regex_example = compile-path_to_regex history_path refl
