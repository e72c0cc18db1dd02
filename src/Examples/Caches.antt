-- ===== src/Examples/Caches.antt =====
-- The user cache and the recommendations.
use my_bookstore.UserCache.Login.{authenticate-register}
use my_bookstore.Hash.{sha256_hex}
use my_bookstore.Recommend.Shelf.{similar_books-IsOffered, IsOffered}
use my_bookstore.Base.{
  Option, ap, ◌∙◌, text_eq, none, int_eq, refl, ◌+◌, ◌==◌, ◌≤◌, if◌then◌else◌, length, some, true,
  Bool, [], ◌∷◌, ◌≡◌, All, Text, codes, lookup, pos, ℕ,
}
use my_bookstore.UserCache.Redis
use my_bookstore.UserCache.Redis.{Redis, Cached, found, missing}
use my_bookstore.UserCache.Redis.Known
use my_bookstore.UserCache.Redis.Known.{authenticate-register_user_cached}
use my_bookstore.Recommend.TopK
use my_bookstore.Recommend.TopK.Offers.{search_similar-build, IsOther}
use my_bookstore.Recommend.Embed.{Floats}
use my_bookstore.Mysql.Inventory.{insert_reservation_sql}
use my_bookstore.Examples.Server.{Tables, Db, server, query}
use my_bookstore.Mysql.Inventory.{take_available_sql}
use my_bookstore.ConnectionPool.{fresh}
use my_bookstore.Base.{
  Dict, insert, lookup-insert, ==_refl, false, ◌+ℤ◌, ◌-ℤ◌, ◌*ℤ◌, ltb_ℤ, leb_ℤ, ℤ, ◌<ℤ◌, arith,
  text_eq,
}
use my_bookstore.Model.{Book}
use my_bookstore.Catalog.{BookClient}
use my_bookstore.UserCache
use my_bookstore.Recommend

-- A database that takes every row.
abbrev takes_row : Text → Text → ℕ → Bool × ℕ
takes_row user digest rows = (true, rows + 1)

abbrev no_users : UserCache.Users × ℕ
no_users = ([], 0)

ann-made : (UserCache.register_user takes_row (λ s. s) (codes "ann") (codes "pw") no_users).0 ≡ true
unfolding UserCache.register_user UserCache.register_locked lookup
ann-made = refl

authenticate-register_example :
    UserCache.authenticate
      (codes "ann")
      (codes "pw")
      (UserCache.register_user takes_row (λ s. s) (codes "ann") (codes "pw") no_users).1.0
    ≡ (if codes "ann" == codes "ann"
        then sha256_hex (codes "pw") == sha256_hex (codes "pw")
        else UserCache.authenticate (codes "ann") (codes "pw") [])
authenticate-register_example =
    authenticate-register takes_row (λ s. s) (codes "ann") (codes "pw") no_users ann-made
      (codes "ann") (codes "pw")

-- A shelf on which number 1 is any book that is active, and an index that proposes two numbers.
abbrev book_one : Book
book_one = record {
  id = pos 1;
  title = codes "C++ Primer";
  author = codes "Stanley Lippman";
  price_cents = pos 9800;
  stock = pos 12;
  status = codes "active";
}

abbrev one_shelf : BookClient ℕ
one_shelf = record {
  list_books = λ s. book_one ∷ [];
  find_book = λ id s. if int_eq id (pos 1) then some book_one else none;
  create_book = λ book s. (none, s);
  update_book = λ id update s. (none, s);
}

abbrev two_proposals : Recommend.BookIndex ℕ
two_proposals = record {
  build = λ books. 0;
  search_similar = λ book limit i. pos 1 ∷ pos 7 ∷ [];
  ready = λ i. true;
}

one-given :
    Recommend.similar_books one_shelf two_proposals (pos 1) (pos 5) 0 0 ≡ some (book_one ∷ [])
unfolding Recommend.similar_books Recommend.similar_to Recommend.collect
one-given = refl

similar_books-IsOffered_example :
    All (IsOffered one_shelf 0) (book_one ∷ []) × (length (book_one ∷ []) ≤ 2)
similar_books-IsOffered_example =
    similar_books-IsOffered one_shelf two_proposals book_one (pos 1) (pos 5) 0 0 (book_one ∷ [])
      refl one-given

abbrev seen : Option Text → Cached
seen none = missing
seen (some value) = found value

abbrev redis : Redis (Dict Text Text)
redis = record {
  get = λ key r. (seen (lookup key r), r);
  set = λ key value ttl r. insert key value r;
}

redis-Keeps : Known.Keeps redis server
redis-Keeps key value ttl r =
    ap seen (
      lookup-insert key key value r
      ∙ ap (λ b. if b then some value else lookup key r) (==_refl key))

abbrev no_tables : Tables
no_tables = record { stock = []; names = [] }

abbrev empty_db : Db
empty_db = record {
  stored = no_tables;
  current = no_tables;
  opened = false;
  changed = 0;
  found = [];
}

abbrev ann_in_redis : Dict Text Text
ann_in_redis = (codes "booktrade:user:cred:ann", sha256_hex (codes "pw")) ∷ []

ann-cached :
    Redis.register_user redis server (codes "ann") (codes "pw") (some 1) [] empty_db
    ≡ ((true, ann_in_redis), empty_db)
unfolding Redis.register_user query insert take_available_sql insert_reservation_sql
ann-cached = refl

authenticate-register_user_cached_example :
    Redis.authenticate redis server true (codes "ann") (codes "other") ann_in_redis fresh empty_db
    ≡ some
        ((sha256_hex (codes "pw") == sha256_hex (codes "other"), ann_in_redis), (fresh, empty_db))
authenticate-register_user_cached_example =
    authenticate-register_user_cached redis server true (codes "ann") (codes "pw") (codes "other")
      (some 1) [] ann_in_redis empty_db empty_db fresh empty_db redis-Keeps refl ann-cached

-- Whole numbers in place of `float`.
abbrev whole : Floats ℤ
whole = record {
  of_int = λ n. n;
  quarter = pos 0;
  plus = λ a b. a +ℤ b;
  minus = λ a b. a -ℤ b;
  times = λ a b. a *ℤ b;
  divided = λ a b. a;
  root = λ a. a;
  less = ltb_ℤ;
  at_most = leb_ℤ;
  same = int_eq;
}

search_similar-build_example :
    let ids =
      TopK.search_similar whole book_one
        (pos 1)
        (TopK.build whole (book_one ∷ record book_one { id = pos 2 } ∷ [])) in
    (length ids ≤ 1) × All (IsOther whole (λ id. pos 0 <ℤ id) book_one.id) ids
search_similar-build_example =
    search_similar-build whole (λ id. pos 0 <ℤ id) (book_one ∷ record book_one { id = pos 2 } ∷ [])
      book_one 1 ((λ e. omega arith), ((λ e. omega arith), tt))
