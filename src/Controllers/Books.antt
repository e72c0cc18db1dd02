-- ===== src/Controllers/Books.antt =====
-- src/app/controller/book_controller.h and recommend_controller.h.
use my_bookstore.Json.{◌>>=◌}
use my_bookstore.Http.{HttpResponse}
use my_bookstore.Base.{
  pos, false, map, ◌==◌, ◌||◌, [], not, starts_with_any_case, to_string, true, if◌then◌else◌,
  is_empty, none, text_eq, ◌++◌, Bool, codes, some, ◌∷◌, List, Option, Text, lookup, ℤ,
}
use my_bookstore.Model.{BookUpdate, Book}
use my_bookstore.Controllers.{with_commas, atoi, failure, HttpResponse, success}
use my_bookstore.Json
use my_bookstore.Catalog.{BookClient, active}
use my_bookstore.Http.Router.{Handler}

-- `to_lower_copy(text).find(to_lower_copy(keyword)) != npos`
unfoldable pub contains_any_case : Text → Text → Bool
contains_any_case keyword [] = is_empty keyword
contains_any_case keyword (c ∷ s) =
    starts_with_any_case keyword (c ∷ s) || contains_any_case keyword s

unfoldable pub contains_ignore_case : Text → Text → Bool
unfolding contains_any_case
contains_ignore_case text keyword =
    if is_empty keyword then true else contains_any_case keyword text

-- The tests in the loop of `filter_books`.
unfoldable pub is_match : Text → Book → Bool
unfolding contains_ignore_case
is_match keyword book =
    if not (book.status == active)
    then false
    else contains_ignore_case book.title keyword || contains_ignore_case book.author keyword

unfoldable pub filter_books : List Book → Text → List Book
unfolding is_match
filter_books [] keyword = []
filter_books (book ∷ rest) keyword =
    let matched = filter_books rest keyword in
    if is_match keyword book then book ∷ matched else matched

unfoldable pub book_to_json : Book → Text
book_to_json book =
    codes "{\"id\":"
    ++ (to_string book.id
        ++ (codes ",\"title\":\""
            ++ (Json.escape_json_string book.title
                ++ (codes "\",\"author\":\""
                    ++ (Json.escape_json_string book.author
                        ++ (codes "\",\"price_cents\":"
                            ++ (to_string book.price_cents
                                ++ (codes ",\"stock\":"
                                    ++ (to_string book.stock
                                        ++ (codes ",\"status\":\""
                                            ++ (Json.escape_json_string book.status
                                                ++ codes "\"}")))))))))))

unfoldable pub books_to_json_array : List Book → Text
unfolding book_to_json
books_to_json_array books = codes "[" ++ (with_commas (map book_to_json books) ++ codes "]")

abbrev book_data : Book → Text
book_data book = codes "\"book\":" ++ book_to_json book

abbrev or_active : Option Text → Text
or_active none = active
or_active (some status) = status

-- The fields of the body that a new book needs.
unfoldable pub book_of_body : Text → Option Book
book_of_body body = do
  title ← Json.json_string_value body (codes "title")
  author ← Json.json_string_value body (codes "author")
  price_cents ← Json.json_int_value body (codes "price_cents")
  stock ← Json.json_int_value body (codes "stock")
  some (record {
    id = pos 0;
    title = title;
    author = author;
    price_cents = price_cents;
    stock = stock;
    status = or_active (Json.json_string_value body (codes "status"));
  })

unfoldable pub update_of_body : Text → BookUpdate
update_of_body body = record {
  title = Json.json_string_value body (codes "title");
  author = Json.json_string_value body (codes "author");
  price_cents = Json.json_int_value body (codes "price_cents");
  stock = Json.json_int_value body (codes "stock");
  status = Json.json_string_value body (codes "status");
}

module _ {S : Type 0} (client : BookClient S) where
  abbrev search_with : Option Text → S → HttpResponse × S
  search_with none s = (failure 400 (codes "missing search query q"), s)
  search_with (some []) s = (failure 400 (codes "missing search query q"), s)
  search_with (some (c ∷ q)) s = (
    success 200 (
        codes "\"query\":\""
        ++ (Json.escape_json_string (c ∷ q)
            ++ (codes "\",\"engine\":\"memory\",\"books\":"
                ++ books_to_json_array (filter_books (client.list_books s) (c ∷ q))))),
    s,
  )

  unfoldable pub handle_search_books : Handler S
  unfolding filter_books books_to_json_array
  handle_search_books request s = search_with (lookup (codes "q") request.query_params) s

  unfoldable pub handle_list_books : Handler S
  unfolding books_to_json_array
  handle_list_books request s =
      (success 200 (codes "\"books\":" ++ books_to_json_array (client.list_books s)), s)

  abbrev found : Option Book → S → HttpResponse × S
  found none s = (failure 404 (codes "book not found"), s)
  found (some book) s = (success 200 (book_data book), s)

  abbrev get_with : Option Text → S → HttpResponse × S
  get_with none s = (failure 400 (codes "missing book_id"), s)
  get_with (some id) s = found (client.find_book (atoi id) s) s

  unfoldable pub handle_get_book : Handler S
  unfolding book_to_json
  handle_get_book request s = get_with (lookup (codes "book_id") request.path_params) s

  abbrev created : Option Book × S → HttpResponse × S
  created (none, s) = (failure 400 (codes "invalid book request"), s)
  created (some book, s) = (success 201 (book_data book), s)

  abbrev create_with : Option Book → S → HttpResponse × S
  create_with none s = (failure 400 (codes "invalid book request"), s)
  create_with (some book) s = created (client.create_book book s)

  unfoldable pub handle_create_book : Handler S
  unfolding book_of_body book_to_json
  handle_create_book request s = create_with (book_of_body request.body) s

  abbrev updated : Option Book × S → HttpResponse × S
  updated (none, s) = (failure 404 (codes "book not found or invalid"), s)
  updated (some book, s) = (success 200 (book_data book), s)

  abbrev update_with : Text → Option Text → S → HttpResponse × S
  update_with body none s = (failure 400 (codes "missing book_id"), s)
  update_with body (some id) s = updated (client.update_book (atoi id) (update_of_body body) s)

  unfoldable pub handle_update_book : Handler S
  unfolding update_of_body book_to_json
  handle_update_book request s =
      update_with request.body (lookup (codes "book_id") request.path_params) s

-- `RecommendService::rebuild` and `similar_books` with the default limit, on the state behind it.
abbrev pub Similar : Type 0 → Type 0
Similar S = ℤ → S → Option (List Book) × S

module _ {S : Type 0} (similar_books : Similar S) where
  abbrev similar_found : ℤ → Option (List Book) × S → HttpResponse × S
  similar_found id (none, s) = (failure 404 (codes "book not found"), s)
  similar_found id (some books, s) = (
    success 200 (
        codes "\"book_id\":"
        ++ (to_string id ++ (codes ",\"books\":" ++ books_to_json_array books))),
    s,
  )

  abbrev similar_with : Option Text → S → HttpResponse × S
  similar_with none s = (failure 400 (codes "missing book_id"), s)
  similar_with (some id) s = similar_found (atoi id) (similar_books (atoi id) s)

  unfoldable pub handle_similar_books : Handler S
  unfolding books_to_json_array
  handle_similar_books request s = similar_with (lookup (codes "book_id") request.path_params) s
