-- ===== src/Gateway.antt =====
-- `ApiGateway` of src/app/api_gateway.h.
pub mod Routes
pub mod Patch
pub mod Start
use my_bookstore.Json.{escape_json_string}
use my_bookstore.Accounts.{UserClient}
use my_bookstore.Orders.{OrderClient}
use my_bookstore.Inventory.{InventoryClient}
use my_bookstore.Base.{
  [], digits, none, ◌++◌, ◌∷◌, codes, if◌then◌else◌, Text, some, true, Bool, List, Option,
}
use my_bookstore.Http.{patch, post, json, get, HttpResponse, HttpRequest, HttpMethod}
use my_bookstore.Catalog.{BookClient}
use my_bookstore.Controllers.Books
use my_bookstore.Controllers.Orders
use my_bookstore.Controllers.Inventory
use my_bookstore.Controllers.Users
use my_bookstore.Http.Router

-- `ReadinessStatus`
pub record ReadinessStatus : Type 0 where
  pub ready : Bool
  pub detail : Text

-- The clients that the handlers call, on one state behind them, the recommendation service and
-- `readiness_checker_`.
pub record Services (S : Type 0) : Type 0 where
  pub books : BookClient S
  pub inventory : InventoryClient S
  pub orders : OrderClient S
  pub users : UserClient S
  pub similar_books : Books.Similar S
  pub readiness_checker : Option (S → ReadinessStatus)

abbrev pub AddedRoute : Type 0 → Type 0
AddedRoute S = HttpMethod × (Text × Router.Handler S)

abbrev pub readiness : {S : Type 0} → Option (S → ReadinessStatus) → S → ReadinessStatus
readiness none s = record { ready = true; detail = codes "ok" }
readiness (some checker) s = checker s

-- The handler of `/api/ready`.
unfoldable pub ready_response : ReadinessStatus → HttpResponse
ready_response status = json (if status.ready then 200 else 503) (
    codes "{\"code\":"
    ++ (digits (if status.ready then 0 else 503)
        ++ (codes ",\"message\":\""
            ++ ((if status.ready then codes "ok" else codes "unavailable")
                ++ (codes "\",\"data\":{\"status\":\""
                    ++ ((if status.ready then codes "ready" else codes "not_ready")
                        ++ (codes "\",\"detail\":\""
                            ++ (escape_json_string status.detail ++ codes "\"}}"))))))))

abbrev pub health_response : HttpResponse
health_response =
    json 200 (codes "{\"code\":0,\"message\":\"ok\",\"data\":{\"service\":\"web-gateway\"}}")

abbrev pub live_response : HttpResponse
live_response = json 200 (codes "{\"code\":0,\"message\":\"ok\",\"data\":{\"status\":\"alive\"}}")

-- The calls of `add_route` in their order; `none` is the exception for a duplicate.
unfoldable pub add_routes :
    {S : Type 0} → List (AddedRoute S) → Router.Router S → Option (Router.Router S)
unfolding Router.add_route
add_routes [] r = some r
add_routes ((method, (path, handler)) ∷ rest) r = elim (Router.add_route method path handler r) [
  | none ↦ none
  | some r' ↦ add_routes rest r'
]

module _ {S : Type 0} (services : Services S) where
  -- The calls in `register_routes`.
  abbrev pub table : List (AddedRoute S)
  table =
      (get, (codes "/api/health", λ request s. (health_response, s)))
      ∷ (get, (codes "/api/live", λ request s. (live_response, s)))
      ∷ (
        get,
        (
          codes "/api/ready",
          λ request s. (ready_response (readiness services.readiness_checker s), s),
        ),
      )
      ∷ (get, (codes "/api/books", Books.handle_list_books services.books))
      ∷ (get, (codes "/api/books/{book_id}", Books.handle_get_book services.books))
      ∷ (post, (codes "/api/books", Books.handle_create_book services.books))
      ∷ (patch, (codes "/api/books/{book_id}", Books.handle_update_book services.books))
      ∷ (get, (codes "/api/books/search", Books.handle_search_books services.books))
      ∷ (
        get,
        (codes "/api/books/{book_id}/similar", Books.handle_similar_books services.similar_books),
      )
      ∷ (post, (codes "/api/auth/register", Users.handle_register_user services.users))
      ∷ (post, (codes "/api/auth/login", Users.handle_login_user services.users))
      ∷ (
        get,
        (codes "/api/inventory/books/{book_id}", Inventory.handle_get_inventory services.inventory),
      )
      ∷ (
        post,
        (
          codes "/api/inventory/books/{book_id}/inbound",
          Inventory.handle_add_inventory services.inventory,
        ),
      )
      ∷ (post, (codes "/api/orders", Orders.handle_create_order services.orders))
      ∷ (get, (codes "/api/orders", Orders.handle_list_orders services.orders))
      ∷ (get, (codes "/api/orders/{order_id}", Orders.handle_get_order services.orders))
      ∷ (post, (codes "/api/orders/{order_id}/cancel", Orders.handle_cancel_order services.orders))
      ∷ []

  unfoldable pub register_routes : Option (Router.Router S)
  unfolding add_routes
  register_routes = add_routes table Router.no_routes

  abbrev dispatch_on : Option (Router.Router S) → HttpRequest → S → Option HttpResponse × S
  dispatch_on none request s = (none, s)
  dispatch_on (some router) request s = Router.route router request s

  -- `dispatch`, once the routes are registered.
  unfoldable pub dispatch : HttpRequest → S → Option HttpResponse × S
  unfolding register_routes Router.route
  dispatch request s = dispatch_on register_routes request s
