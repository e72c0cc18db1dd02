-- ===== src/Examples/Gateways.antt =====
-- Requests to the gateway.
use my_bookstore.Gateway.Patch.{process_read-patch}
use my_bookstore.Http.Conn.Read.Pass.{line_done}
use my_bookstore.Controllers.Books.{handle_search_books, handle_get_book}
use my_bookstore.Http.Conn.Read.Lines.{IsPlain}
use my_bookstore.Base.{some, false, refl, ◌∷◌, none, ◌++◌, ◌≡◌, [], codes, ℕ}
use my_bookstore.Http.Conn.Read.Whole.{is_plain-IsPlain, is_plain}
use my_bookstore.Http.Conn.Read.{process_read}
use my_bookstore.Http.{get, HttpRequest}
use my_bookstore.Gateway.Routes.{dispatch-books, answered, get_book}
use my_bookstore.Http.Conn
use my_bookstore.Gateway

-- Services over a shelf that has no books and knows no users.
abbrev empty_services : Gateway.Services ℕ
empty_services = record {
  books = record {
    list_books = λ s. [];
    find_book = λ id s. none;
    create_book = λ book s. (none, s);
    update_book = λ id update s. (none, s);
  };
  inventory = record {
    available_stock = λ id s. none;
    add_stock = λ id n s. (none, s);
    reserve_stock = λ id n s. (false, s);
    release_stock = λ id n s. s;
    reserve_all = λ id items s. (false, s);
    release_all = λ id items s. s;
  };
  orders = record {
    create_order = λ id items s. (none, s);
    list_orders = λ s. [];
    find_order = λ id s. none;
    cancel_order = λ id s. (none, s);
  };
  users = record {
    register_user = λ name password s. (none, s);
    authenticate = λ name password s. none;
  };
  similar_books = λ id s. (none, s);
  readiness_checker = none;
}

abbrev no_request : HttpRequest
no_request = record {
  method = get;
  path = [];
  body = [];
  headers = [];
  path_params = [];
  query_params = [];
}

dispatch-books_example :
    (Gateway.dispatch empty_services (get_book (codes "17") no_request) 0
      ≡ answered (
          handle_get_book empty_services.books
            (record (get_book (codes "17") no_request) {
              path_params = (codes "book_id", codes "17") ∷ [];
            })
            0))
    × (Gateway.dispatch empty_services (get_book (codes "search") no_request) 0
        ≡ answered
            (handle_search_books empty_services.books (get_book (codes "search") no_request) 0))
dispatch-books_example =
    dispatch-books empty_services no_request (codes "17") 0 (refl, (refl, (refl, tt))) refl

IsPlain-tail : IsPlain (codes "/api/books/1 HTTP/1.1")
unfolding is_plain
IsPlain-tail = is_plain-IsPlain (codes "/api/books/1 HTTP/1.1") refl

process_read-patch_example :
    process_read (
      Conn.append_bytes
        ((codes "PATCH " ++ codes "/api/books/1 HTTP/1.1") ++ 13 ∷ 10 ∷ [])
        Conn.reset_state)
    ≡ some (
      Conn.bad_request,
      line_done (codes "PATCH " ++ codes "/api/books/1 HTTP/1.1") [] Conn.reset_state,
    )
process_read-patch_example = process_read-patch (codes "/api/books/1 HTTP/1.1") [] IsPlain-tail
