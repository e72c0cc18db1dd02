-- ===== src/Http/Router.antt =====
-- `Router` of src/net/http/router.h. A handler runs on a state of the program and returns its
-- response beside the new state.
pub mod Split
pub mod Match
pub mod Dispatch
use my_bookstore.Base.{
  last_is, text_eq, drop, is_some, zero, ◌==◌, insert, split_at, ◌&&◌, ◌++◌, ◌-◌, ◌||◌, Dict, false,
  if◌then◌else◌, length, ltb, nat_eq, none, some, suc, take, ◌∷◌, Bool, List, Option, Text, [], ℕ,
}
use my_bookstore.Http.{
  ℕ, [], Text, Bool, HttpMethod, get, post, put, patch, delete, unknown, HttpRequest, HttpResponse,
}

abbrev pub Handler : Type 0 → Type 0
Handler S = HttpRequest → S → HttpResponse × S

-- `method_key`
unfoldable pub method_key : HttpMethod → ℕ
method_key get = 0
method_key post = 1
method_key put = 2
method_key patch = 3
method_key delete = 4
method_key unknown = 5

pub record RouteKey : Type 0 where
  pub method : HttpMethod
  pub path : Text

-- `RouteKey::operator==`
unfoldable pub key_eq : RouteKey → RouteKey → Bool
unfolding method_key
key_eq a b = nat_eq (method_key a.method) (method_key b.method) && a.path == b.path

pub record Route (S : Type 0) : Type 0 where
  pub method : HttpMethod
  pub path : Text
  pub parts : List Text
  pub handler : Handler S

-- `exact_routes_`, and `param_routes_` as the routes of all methods in the order of registration.
pub record Router (S : Type 0) : Type 0 where
  pub exact_routes : List (RouteKey × Route S)
  pub param_routes : List (Route S)

abbrev pub no_routes : {S : Type 0} → Router S
no_routes = record { exact_routes = []; param_routes = [] }

unfoldable pub skip_slashes : Text → Text
skip_slashes [] = []
skip_slashes (c ∷ s) = if nat_eq c b'/' then skip_slashes s else c ∷ s

-- The end of a round of `split_path`, where `again` is the rest of the loop.
unfoldable pub parts_after : (Text → List Text) → Option Text → List Text
parts_after again none = []
parts_after again (some s) = again s

-- A round behind the skipped slashes.
unfoldable pub cut_part : (Text → List Text) → Text → List Text
unfolding parts_after
cut_part again [] = []
cut_part again (c ∷ s) = let (part, rest) = split_at b'/' (c ∷ s) in part ∷ parts_after again rest

-- The outer loop of `split_path`; a round uses up a character at least.
unfoldable pub split_loop : ℕ → Text → List Text
unfolding skip_slashes
split_loop zero s = []
split_loop (suc fuel) s = cut_part (split_loop fuel) (skip_slashes s)

unfoldable pub split_path : Text → List Text
unfolding split_loop
split_path path = split_loop (length path) path

abbrev first_is : ℕ → Text → Bool
first_is c [] = false
first_is c (x ∷ s) = nat_eq x c

unfoldable pub is_param : Text → Bool
is_param segment = ltb 2 (length segment) && first_is b'{' segment && last_is b'}' segment

unfoldable pub has_param : List Text → Bool
unfolding is_param
has_param [] = false
has_param (part ∷ rest) = is_param part || has_param rest

-- `segment.substr(1, segment.size() - 2)`
unfoldable pub param_name : Text → Text
param_name segment = take (length segment - 2) (drop 1 segment)

-- The loop of `match_path`; the lists have the same length there.
unfoldable pub match_loop : List Text → List Text → Dict Text Text → Option (Dict Text Text)
match_loop [] parts params = some params
match_loop (p ∷ pattern) [] params = none
match_loop (p ∷ pattern) (part ∷ parts) params =
    let bound = match_loop pattern parts (insert (param_name p) part params) in
    let plain = match_loop pattern parts params in
    if is_param p then bound else if p == part then plain else none

-- `none` is the result `false`.
unfoldable pub match_path : List Text → List Text → Option (Dict Text Text)
match_path pattern parts =
    if nat_eq (length pattern) (length parts) then match_loop pattern parts [] else none

module _ {S : Type 0} where
  unfoldable pub find_exact : RouteKey → List (RouteKey × Route S) → Option (Route S)
  find_exact key [] = none
  find_exact key ((k, route) ∷ rest) = if key_eq k key then some route else find_exact key rest

  -- `none` is the exception for a duplicate.
  unfoldable pub add_route : HttpMethod → Text → Handler S → Router S → Option (Router S)
  add_route method path handler r =
      let route : Route S = record {
        method = method;
        path = path;
        parts = split_path path;
        handler = handler;
      } in
      let key : RouteKey = record { method = method; path = path } in
      if has_param (split_path path)
      then some (record r { param_routes = r.param_routes ++ route ∷ [] })
      else if is_some (find_exact key r.exact_routes)
      then none
      else some (record r { exact_routes = r.exact_routes ++ (key, route) ∷ [] })

  -- The loop over the routes with parameters of the request's method.
  unfoldable pub find_param :
      HttpRequest → List Text → List (Route S) → Option (Handler S × HttpRequest)
  find_param request parts [] = none
  find_param request parts (route ∷ rest) =
      let next = find_param request parts rest in
      let try : Option (Handler S × HttpRequest) = elim (match_path route.parts parts) [
        | none ↦ next
        | some params ↦ some (route.handler, record request { path_params = params })
      ] in
      if nat_eq (method_key route.method) (method_key request.method) then try else next

  abbrev pub run_found : Option (Handler S × HttpRequest) → S → Option HttpResponse × S
  run_found none s = (none, s)
  run_found (some (handler, request)) s =
      let (response, s') = handler request s in (some response, s')

  unfoldable pub choose : Router S → HttpRequest → Option (Handler S × HttpRequest)
  unfolding find_exact find_param
  choose r request =
      elim (find_exact (record { method = request.method; path = request.path }) r.exact_routes) [
        | some route ↦ some (route.handler, request)
        | none ↦ find_param request (split_path request.path) r.param_routes
      ]

  unfoldable pub route : Router S → HttpRequest → S → Option HttpResponse × S
  unfolding choose
  route r request s = run_found (choose r request) s
