-- ===== src/Http/Router/Dispatch.antt =====
-- Which handler `Router::route` runs: the exact routes first, then the routes with parameters in the
-- order of their registration.
use mathlib.Core.List.{append-nil}
use my_bookstore.Http.Router.Match.{match_path_iff, Matches}
use my_bookstore.Base.{
  ◌∙◌, sym, Option-cases, ap, inr, if◌then◌else◌, subst, inl, Bool-cases, [], refl, ==_refl, some,
  ◌∷◌, nat_eq_iff, none, ◌++◌, Dict, false, true, All, Text, is_some, nat_eq, ◌≡◌, List,
}
use my_bookstore.Http.Router.{
  run_found, match_path, split_path, has_param, find_param, Handler, Router, choose, RouteKey,
  Route, List, route, method_key, key_eq, find_exact, add_route,
}
use my_bookstore.Http.{HttpMethod, HttpRequest}

key_eq_refl : (k : RouteKey) → key_eq k k ≡ true
unfolding key_eq
key_eq_refl k =
    rw ((nat_eq_iff (method_key k.method) (method_key k.method)).1 refl, ==_refl k.path) refl

module _ {S : Type 0} where
  find_exact-last :
      (key : RouteKey) (route : Route S) (rest : List (RouteKey × Route S))
      → is_some (find_exact key rest) ≡ false
      → find_exact key (rest ++ (key, route) ∷ []) ≡ some route
  unfolding find_exact
  find_exact-last key route [] h = rw (key_eq_refl key) refl
  find_exact-last key route ((k, r) ∷ rest) h = elim (Bool-cases (key_eq k key)) [
    | inl e ↦ cc (subst (λ b. is_some (if b then some r else find_exact key rest) ≡ false) e h)
    | inr e ↦ rw e (
        find_exact-last key route rest
          (subst (λ b. is_some (if b then some r else find_exact key rest) ≡ false) e h))
  ]

  -- A registration without parameters that succeeds.
  add_route-exact :
      (method : HttpMethod) (path : Text) (handler : Handler S) (r r' : Router S)
      → has_param (split_path path) ≡ false
      → add_route method path handler r ≡ some r'
      → find_exact (record { method = method; path = path }) r'.exact_routes
        ≡ some (record { method = method; path = path; parts = split_path path; handler = handler })
  unfolding add_route
  add_route-exact method path handler r r' p h =
      let key : RouteKey = record { method = method; path = path } in
      let found : Route S = record {
        method = method;
        path = path;
        parts = split_path path;
        handler = handler;
      } in
      let added : Router S = record r { exact_routes = r.exact_routes ++ (key, found) ∷ [] } in
      let params : Router S = record r { param_routes = r.param_routes ++ found ∷ [] } in
      let h' : (if is_some (find_exact key r.exact_routes) then none else some added) ≡ some r' =
        subst
          (λ b.
            (if b
              then some params
              else if is_some (find_exact key r.exact_routes)
              then none
              else some added)
            ≡ some r')
          p h in
      elim (Bool-cases (is_some (find_exact key r.exact_routes))) [
        | inl e ↦ cc (subst (λ b. (if b then none else some added) ≡ some r') e h')
        | inr e ↦
            let same : added ≡ r' =
              cc (subst (λ b. (if b then none else some added) ≡ some r') e h') in
            ap {A = Router S} (λ x. find_exact key x.exact_routes) (sym same)
            ∙ find_exact-last key found r.exact_routes e
      ]

  choose-exact :
      (r : Router S) (request : HttpRequest) (found : Route S)
      → find_exact (record { method = request.method; path = request.path }) r.exact_routes
        ≡ some found
      → choose r request ≡ some (found.handler, request)
  unfolding choose
  choose-exact r request found e = rw (e, choose) refl

  choose-param :
      (r : Router S) (request : HttpRequest)
      → find_exact (record { method = request.method; path = request.path }) r.exact_routes ≡ none
      → choose r request ≡ find_param request (split_path request.path) r.param_routes
  unfolding choose
  choose-param r request e = rw (e, choose) refl

  -- After a route without parameters was registered, a request of its method and path runs its
  -- handler, whatever routes stand beside it.
  pub route-add_route :
      (handler : Handler S) (r r' : Router S) (request : HttpRequest) (s : S)
      → has_param (split_path request.path) ≡ false
      → add_route request.method request.path handler r ≡ some r'
      → route r' request s ≡ run_found (some (handler, request)) s
  unfolding route
  route-add_route handler r r' request s p h =
      ap (λ c. run_found c s)
        (choose-exact r' request
          (record {
            method = request.method;
            path = request.path;
            parts = split_path request.path;
            handler = handler;
          })
          (add_route-exact request.method request.path handler r r' p h))

  -- After a route without parameters was registered, a second one of the same method and path is
  -- refused.
  pub add_route-add_route :
      (method : HttpMethod) (path : Text) (first second : Handler S) (r r' : Router S)
      → has_param (split_path path) ≡ false
      → add_route method path first r ≡ some r'
      → add_route method path second r' ≡ none
  unfolding add_route
  add_route-add_route method path first second r r' p h =
      rw (p, add_route-exact method path first r r' p h) refl

  -- The route is for another method, or its pattern does not match the path.
  abbrev pub Misses : HttpRequest → Route S → Type 0
  Misses request route =
      nat_eq (method_key route.method) (method_key request.method) ≡ true
      → ¬ Matches route.parts (split_path request.path)

  find_param-Misses :
      (request : HttpRequest) (before rest : List (Route S))
      → All (Misses request) before
      → find_param request (split_path request.path) (before ++ rest)
        ≡ find_param request (split_path request.path) rest
  unfolding find_param
  find_param-Misses request [] rest h = refl
  find_param-Misses request (route ∷ before) rest h =
      elim (Bool-cases (nat_eq (method_key route.method) (method_key request.method))) [
        | inl e ↦ elim (Option-cases (match_path route.parts (split_path request.path))) [
          | inl n ↦ rw (e, n) (find_param-Misses request before rest h.1)
          | inr (params, n) ↦
              absurd
                (h.0 e ((match_path_iff route.parts (split_path request.path)).0 (ap is_some n)))
        ]
        | inr e ↦ rw e (find_param-Misses request before rest h.1)
      ]

  find_param-found :
      (request : HttpRequest) (found : Route S) (after : List (Route S)) (params : Dict Text Text)
      → found.method ≡ request.method
      → match_path found.parts (split_path request.path) ≡ some params
      → find_param request (split_path request.path) (found ∷ after)
        ≡ some (found.handler, record request { path_params = params })
  unfolding find_param
  find_param-found request found after params m p =
      rw (m, p, (nat_eq_iff (method_key request.method) (method_key request.method)).1 refl) refl

  -- Without an exact route, the first registered route with parameters that matches runs, with what
  -- its pattern binds as the request's parameters.
  pub route-first :
      (r : Router S) (request : HttpRequest) (s : S) (before after : List (Route S))
      (found : Route S) (params : Dict Text Text)
      → find_exact (record { method = request.method; path = request.path }) r.exact_routes ≡ none
      → r.param_routes ≡ before ++ found ∷ after
      → All (Misses request) before
      → found.method ≡ request.method
      → match_path found.parts (split_path request.path) ≡ some params
      → route r request s
        ≡ run_found (some (found.handler, record request { path_params = params })) s
  unfolding route
  route-first r request s before after found params n e h m p =
      ap (λ c. run_found c s)
        (choose-param r request n
          ∙ ap (find_param request (split_path request.path)) e
          ∙ find_param-Misses request before (found ∷ after) h
          ∙ find_param-found request found after params m p)

  find_param-none :
      (request : HttpRequest) (routes : List (Route S))
      → All (Misses request) routes
      → find_param request (split_path request.path) routes ≡ none
  unfolding find_param
  find_param-none request routes h =
      ap (find_param request (split_path request.path)) (sym (append-nil routes))
      ∙ find_param-Misses request routes [] h

  -- A request that matches no route is answered with nothing and changes nothing.
  pub route-Misses :
      (r : Router S) (request : HttpRequest) (s : S)
      → find_exact (record { method = request.method; path = request.path }) r.exact_routes ≡ none
      → All (Misses request) r.param_routes
      → route r request s ≡ (none, s)
  unfolding route
  route-Misses r request s n h =
      ap (λ c. run_found c s) (choose-param r request n ∙ find_param-none request r.param_routes h)
