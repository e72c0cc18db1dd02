-- ===== src/Gateway/Routes.antt =====
-- Where requests go.
use my_bookstore.Controllers.Users
use my_bookstore.Controllers.Inventory
use mathlib.Core.List.{append-nil}
use my_bookstore.Http.Router.Split.{split_path-join_path, IsPart}
use my_bookstore.Base.{
  insert, List, ◌∙◌, sym, ap, text_eq, [], false, refl, ◌∷◌, ◌++◌, ◌==◌, ◌≡◌, codes, some, Option,
  Text, split_at,
}
use my_bookstore.Http.{HttpRequest, HttpResponse, HttpMethod}
use my_bookstore.Gateway.{patch, post, get, HttpRequest, Text, HttpResponse, HttpMethod}
use my_bookstore.Gateway
use my_bookstore.Http.Router
use my_bookstore.Controllers.Books
use my_bookstore.Controllers.Orders

-- What a handler gives, as the gateway's answer.
abbrev pub answered : {S : Type 0} → HttpResponse × S → Option HttpResponse × S
answered (response, s) = (some response, s)

abbrev pub at_path : HttpMethod → Text → HttpRequest → HttpRequest
at_path method path request = record request { method = method; path = path }

-- The request for a book.
abbrev pub get_book : Text → HttpRequest → HttpRequest
get_book id = at_path get (codes "/api/books/" ++ id)

split_path-id :
    (id : Text)
    → IsPart id
    → Router.split_path (codes "/api/books/" ++ id) ≡ codes "api" ∷ codes "books" ∷ id ∷ []
split_path-id id h =
    ap (λ t. Router.split_path (codes "/api/books/" ++ t)) (sym (append-nil id))
    ∙ split_path-join_path (codes "api" ∷ codes "books" ∷ id ∷ []) (
      (refl, (refl, (refl, (refl, tt)))),
      ((refl, (refl, (refl, (refl, (refl, (refl, tt)))))), (h, tt)),
    )

module _ {S : Type 0} (services : Gateway.Services S) where
  -- The search is found before the route with a book's number, whatever the rest of the request.
  dispatch-search :
      (request : HttpRequest) (s : S)
      → Gateway.dispatch services (at_path get (codes "/api/books/search") request) s
        ≡ answered (
            Books.handle_search_books services.books
              (at_path get (codes "/api/books/search") request)
              s)
  unfolding Gateway.dispatch Gateway.add_routes Router.parts_after split_at Gateway.register_routes
      Router.route Router.add_route Router.method_key Router.is_param Router.find_exact
      Router.key_eq Router.has_param Router.split_path Router.split_loop Router.skip_slashes
      Router.cut_part Router.choose
  dispatch-search request s = refl

  abbrev route_of : HttpMethod → Text → List Text → Router.Handler S → Router.Route S
  route_of method path parts handler = record {
    method = method;
    path = path;
    parts = parts;
    handler = handler;
  }

  abbrev exact : HttpMethod → Text → Router.Handler S → Router.RouteKey × Router.Route S
  exact method path handler = (
    record { method = method; path = path },
    route_of method path (Router.split_path path) handler,
  )

  -- The routes of the table by their kind.
  abbrev routes : Router.Router S
  routes = record {
    exact_routes =
        exact get (codes "/api/health") (λ request s. (Gateway.health_response, s))
        ∷ exact get (codes "/api/live") (λ request s. (Gateway.live_response, s))
        ∷ exact get (codes "/api/ready") (λ request s.
          (Gateway.ready_response (Gateway.readiness services.readiness_checker s), s))
        ∷ exact get (codes "/api/books") (Books.handle_list_books services.books)
        ∷ exact post (codes "/api/books") (Books.handle_create_book services.books)
        ∷ exact get (codes "/api/books/search") (Books.handle_search_books services.books)
        ∷ exact post (codes "/api/auth/register") (Users.handle_register_user services.users)
        ∷ exact post (codes "/api/auth/login") (Users.handle_login_user services.users)
        ∷ exact post (codes "/api/orders") (Orders.handle_create_order services.orders)
        ∷ exact get (codes "/api/orders") (Orders.handle_list_orders services.orders)
        ∷ [];
    param_routes =
        route_of get (codes "/api/books/{book_id}")
          (codes "api" ∷ codes "books" ∷ codes "{book_id}" ∷ [])
          (Books.handle_get_book services.books)
        ∷ route_of patch (codes "/api/books/{book_id}")
            (codes "api" ∷ codes "books" ∷ codes "{book_id}" ∷ [])
            (Books.handle_update_book services.books)
        ∷ route_of get (codes "/api/books/{book_id}/similar")
            (codes "api" ∷ codes "books" ∷ codes "{book_id}" ∷ codes "similar" ∷ [])
            (Books.handle_similar_books services.similar_books)
        ∷ route_of get (codes "/api/inventory/books/{book_id}")
            (codes "api" ∷ codes "inventory" ∷ codes "books" ∷ codes "{book_id}" ∷ [])
            (Inventory.handle_get_inventory services.inventory)
        ∷ route_of post (codes "/api/inventory/books/{book_id}/inbound")
            (codes "api"
              ∷ codes "inventory"
              ∷ codes "books"
              ∷ codes "{book_id}"
              ∷ codes "inbound"
              ∷ [])
            (Inventory.handle_add_inventory services.inventory)
        ∷ route_of get (codes "/api/orders/{order_id}")
            (codes "api" ∷ codes "orders" ∷ codes "{order_id}" ∷ [])
            (Orders.handle_get_order services.orders)
        ∷ route_of post (codes "/api/orders/{order_id}/cancel")
            (codes "api" ∷ codes "orders" ∷ codes "{order_id}" ∷ codes "cancel" ∷ [])
            (Orders.handle_cancel_order services.orders)
        ∷ [];
  }

  -- No route is registered twice, so all of the table is there.
  registered : Gateway.register_routes services ≡ some routes
  unfolding Gateway.add_routes Router.parts_after split_at Gateway.register_routes Router.add_route
      Router.method_key Router.is_param Router.find_exact Router.key_eq Router.has_param
      Router.split_path Router.split_loop Router.skip_slashes Router.cut_part
  registered = refl

  found_book :
      (request : HttpRequest) (id : Text)
      → IsPart id
      → codes "search" == id ≡ false
      → Router.choose routes (get_book id request)
        ≡ some (
          Books.handle_get_book services.books,
          record (get_book id request) { path_params = (codes "book_id", id) ∷ [] },
        )
  unfolding Router.choose Router.find_exact Router.find_param Router.key_eq Router.match_path
      Router.match_loop Router.is_param Router.param_name insert
  found_book request id part other = rw (other, split_path-id id part) refl

  -- A request for a book whose number is given as a part of the path that is not `search` goes to
  -- the handler for one book, with the part under `book_id`, while the path of the search goes to the
  -- handler of the search.
  pub dispatch-books :
      (request : HttpRequest) (id : Text) (s : S)
      → IsPart id
      → codes "search" == id ≡ false
      → (Gateway.dispatch services (get_book id request) s
          ≡ answered (
              Books.handle_get_book services.books
                (record (get_book id request) { path_params = (codes "book_id", id) ∷ [] })
                s))
        × (Gateway.dispatch services (get_book (codes "search") request) s
            ≡ answered
                (Books.handle_search_books services.books (get_book (codes "search") request) s))
  unfolding Gateway.dispatch Router.route
  dispatch-books request id s part other =
      (rw (registered, found_book request id part other) refl, dispatch-search request s)
