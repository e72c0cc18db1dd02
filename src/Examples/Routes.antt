-- ===== src/Examples/Routes.antt =====
-- Routes of the gateway, and requests to them.
use my_bookstore.Http.Router.Match.{match_path_iff, here, Matches, later, Binds}
use my_bookstore.Http.Router.Dispatch.{route-first, Misses}
use my_bookstore.Base.{
  false, split_at, text_eq, refl, suc, ◌↔◌, insert, none, some, true, ◌∷◌, [], codes, ◌≡◌, Dict,
  List, Text, is_some, ℕ,
}
use my_bookstore.Http.Router.{
  run_found, has_param, parts_after, no_routes, cut_part, skip_slashes, split_loop, param_name,
  match_loop, Handler, split_path, route, method_key, match_path, is_param, find_exact, add_route,
  Router, Route,
}
use my_bookstore.Http.{json, post, get, HttpRequest}

-- `/api/books/{book_id}` and `/api/books/7`
abbrev book_pattern : List Text
book_pattern = codes "api" ∷ codes "books" ∷ codes "{book_id}" ∷ []

abbrev book_path : List Text
book_path = codes "api" ∷ codes "books" ∷ codes "7" ∷ []

match_path_iff_example :
    (is_some (match_path book_pattern book_path) ≡ true) ↔ Matches book_pattern book_path
match_path_iff_example = match_path_iff book_pattern book_path

book_id-Binds : Binds (codes "book_id") (codes "7") book_pattern book_path
unfolding is_param param_name
book_id-Binds =
    later (codes "api") (codes "api") (
      later (codes "books") (codes "books")
        (here (codes "{book_id}") (codes "7") refl refl refl tt))

abbrev bound : Dict Text Text
bound = (codes "book_id", codes "7") ∷ []

book_path-matched : match_path book_pattern book_path ≡ some bound
unfolding match_path match_loop is_param param_name insert
book_path-matched = refl

-- A handler that counts its calls.
abbrev counting : ℕ → Handler ℕ
counting status request n = (json status [], suc n)

abbrev get_request : Text → HttpRequest
get_request path = record {
  method = get;
  path = path;
  body = [];
  headers = [];
  path_params = [];
  query_params = [];
}

abbrev live : Text
live = codes "/api/live"

abbrev live_route : Route ℕ
live_route = record {
  method = get;
  path = live;
  parts = codes "api" ∷ codes "live" ∷ [];
  handler = counting 200;
}

abbrev one_route : Router ℕ
one_route = record {
  exact_routes = (record { method = get; path = live }, live_route) ∷ [];
  param_routes = [];
}

live_added : add_route get live (counting 200) no_routes ≡ some one_route
unfolding add_route split_path split_loop skip_slashes cut_part parts_after split_at has_param
    is_param find_exact
live_added = refl

live-plain : has_param (split_path live) ≡ false
unfolding split_path split_loop skip_slashes cut_part parts_after split_at has_param is_param
live-plain = refl

-- Two routes with parameters, of which the second matches.
abbrev book_route : Route ℕ
book_route = record {
  method = get;
  path = codes "/api/books/{book_id}";
  parts = book_pattern;
  handler = counting 201;
}

abbrev post_route : Route ℕ
post_route = record {
  method = post;
  path = codes "/api/books/{book_id}";
  parts = book_pattern;
  handler = counting 404;
}

abbrev param_router : Router ℕ
param_router = record { exact_routes = []; param_routes = post_route ∷ book_route ∷ [] }

abbrev book_request : HttpRequest
book_request = get_request (codes "/api/books/7")

no_exact : find_exact {S = ℕ} (record { method = get; path = codes "/api/books/7" }) [] ≡ none
unfolding find_exact
no_exact = refl

post_route-Misses : Misses book_request post_route
unfolding method_key
post_route-Misses e m = cc e

book_request-matched : match_path book_pattern (split_path book_request.path) ≡ some bound
unfolding match_path match_loop is_param param_name insert split_path split_loop skip_slashes
    cut_part parts_after split_at
book_request-matched = refl

route-first_example :
    route param_router book_request 0
    ≡ run_found (some (counting 201, record book_request { path_params = bound })) 0
route-first_example =
    route-first param_router book_request 0 (post_route ∷ []) [] book_route bound no_exact refl
      (post_route-Misses, tt) refl book_request-matched
