-- ===== src/Lib.antt =====
-- A verification library for the bookstore server: the services behind its HTTP API, the helpers that
-- read and write requests, and the queues and pools that its threads share.
--
-- Parts and files
--   Model       src/app/model: the structs.
--   Inventory   the interfaces of src/app/repository/inventory_repository.h and
--               src/app/client/inventory_client.h. Inventory/Memory is MemoryInventoryRepository of
--               src/app/repository/memory/memory_repositories.h, Inventory/Service the
--               InventoryService, Inventory/Local the LocalInventoryClient with its own batch loop.
--               Inventory/Laws and Inventory/Reserved state what the clients rely on; Rollback and
--               Returned are about giving copies back.
--   Catalog     the same for books: Catalog/Memory, Catalog/Service, Catalog/Local.
--   Orders      the same for orders. Orders/Service is OrderService of
--               src/app/service/order_service.h over any book client, inventory client and order
--               repository; Orders/Laws states what it relies on. Orders/Service/Pricing, Create,
--               Cancel and Cancel/Cases are about its calls.
--   Accounts    users: Accounts/Memory, and Accounts/Service with the digest of Hash.
--   Hash        src/app/util/sha256.h.
--   Http        src/net/http/http_request.h and http_response.h; Http/Url is url_params.h,
--               Http/Router is router.h.
--               Http/Conn is HttpConn of src/net/http/http_conn.cpp: Request has the parsers of a
--               line, Read the loop of process_read, Answer do_request, Reply process_write, Send
--               write, and Process the call that puts them together. Read/Lines, Pass, Keeps, Fuel,
--               Longer, Resume, Whole and Body, Send/Pieces and Lost, and Process/Files are about them.
--   Json        src/app/util/json.h.
--   Controllers src/app/controller: Orders, Inventory, Users (auth_controller.h) and Books, with the
--               handler of recommend_controller.h.
--   Recommend   RecommendService of src/app/service/recommend_service.h, over any index.
--               Recommend/Embed is src/app/recommend/book_embedder.h, Recommend/TopK and
--               Recommend/Hnsw the two indices of src/app/recommend/book_vector_index.cpp.
--   Gateway     src/app/api_gateway.h: the table of routes and dispatch; Gateway/Start has the
--               dependencies and the clients. Gateway/Routes and Patch are about where requests go.
--   UserCache   src/db/user_cache.cpp; UserCache/Redis is src/db/redis_user_cache.cpp.
--   Grpc        src/app/grpc and src/app/client/grpc_*.cpp: Orders, Inventory, Books and Users have
--               the messages, and below them the service and the client. Orders/Same, Books/Same and
--               Inventory/Known compare a client over its service with the service in the process.
--   Mysql       src/app/repository/mysql/mysql_repositories.cpp: Rows reads columns; Users, Books,
--               Inventory and Orders are the repositories. Transaction and its children are about
--               what is stored behind a session, Connections and Connections/Waits about the pool.
--   Semaphore   src/util/semaphore.h.
--   Config      src/core/config.cpp, and trig_mode of src/core/webserver.cpp.
--   BlockQueue  src/log/block_queue.h.
--   ThreadPool  src/pool/threadpool.h.
--   ConnectionPool  src/db/sql_connection_pool.cpp.
--   Timer       sort_timer_lst of src/timer/lst_timer.cpp.
--   WebServer   the connections and timers in src/core/webserver.cpp. WebServer/Owners, Served,
--               Changes and Expiry have the lemmas for Lifecycle, about the proactor; Reactor is about
--               the other actor model.
--   Examples    the theorems at concrete inputs.
--
-- How the code is modelled
--   An object is a state that its operations take and return. An operation that may give nothing
--   (`std::optional`, `nullptr`, `false` with an output parameter, an exception of a constructor)
--   returns `Option`. An interface of the source (a class of virtual functions) is a record of
--   functions over a state, and a shared_ptr to it is that record with the state.
--   `int` is an integer (Base/Int); each sum, difference and product of the source goes through
--   `wrap32`, the two's complement result, since a signed overflow has no meaning in C++. A text is the
--   list of its bytes. An `std::unordered_map` is an association list: no code here depends on its
--   iteration order.
--   A section under a mutex is one step. A call that waits on a condition variable returns what it does
--   in the given state: it waits, fails or gives a result. Theorems about threads hold for every
--   sequence of such steps.
--   HttpConn keeps `read_buf_` as two texts, the bytes in front of `checked_idx_` and those from there to
--   `read_idx_`. The results of `recv`, `writev`, `accept` and `epoll_wait` are arguments; the gateway
--   and the files behind a path are parameters of do_request. A pointer to a timer is the number of its
--   allocation. The heap of timers lists its nodes in the order in which they leave it; a node whose
--   expiry is changed in place stays where it is.
--   Loops are recursions on their list. The loops over a text by positions run on fuel that is the
--   length of the text, or one more; each round uses up a character at least, so it is enough.
--   The loop of process_read (read_loop, which tells when its fuel is used up) runs on twice the bytes
--   that are left and two more: a round on a line takes
--   a byte at least, and one on the content is followed by one on a line.
--   The MySQL client, the Redis client, the gRPC channel, hnswlib and the arithmetic of `float` are
--   parameters. What a repository says to MySQL on one connection is a `Session`, which branches on
--   each answer; the promises about transactions (Promises) and about the UPDATE of an amount
--   (KeepsAmounts), and about the table of reservations (KeepsNames), are hypotheses of the theorems
--   that need them, and hold while no other connection writes. Examples/Server is a server that keeps
--   them, as Examples/Tables shows.
--   `read_buf_` has no bound in the parser; do_recv (read_all) has it. parse_content adds
--   `checked_idx_` and `content_length_` as whole numbers, which is the source's sum while that fits
--   `long`. `users` and `users_timer` have no bound; the source has MAX_FD entries, and descriptors of
--   MAX_FD or more are outside of what it handles.
--
-- Not modelled
--   The environment variables and the choices that they make. The start of the servers, the signals
--   and the sockets are calls of the system, as is the log file.
pub mod Base
pub mod Model
pub mod Inventory
pub mod Catalog
pub mod Orders
pub mod Hash
pub mod Accounts
pub mod Http
pub mod Json
pub mod Recommend
pub mod Controllers
pub mod Gateway
pub mod UserCache
pub mod Semaphore
pub mod Config
pub mod BlockQueue
pub mod ThreadPool
pub mod ConnectionPool
pub mod Mysql
pub mod Grpc
pub mod Timer
pub mod WebServer
pub mod Examples
